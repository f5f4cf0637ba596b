-- ===== src/Runtime/Slots.antt =====
-- The time of the chain: the runtime's slots, which a node asks for, the timestamps and slots that
-- its inherents carry (kontracs/node/src/service.rs), and the timestamps that the runtime accepts.
use kontracts.Prelude.{
  ℕ, ◌+◌, ◌-◌, ◌*◌, ◌/◌, ◌≤◌, ◌<◌, ◌≡◌, ◌∙◌, ap, Bool, true, List, [], ◌∷◌, arith,
}
use kontracts.Runtime.{slot_duration}
use kontracts.Runtime.Config.{TimestampConfig, timestamp_config}
use kontracts.Runtime.Apis.{Frame, api_slot_duration}

-- Substrate's slot of a timestamp, and pallet_timestamp's check of a timestamp after another.
pub record Clock : Type 0 where
  pub from_timestamp_and_slot_duration : ℕ → ℕ → ℕ
  pub accepts : TimestampConfig → ℕ → ℕ → Bool

-- A slot is twice the minimum period, slots follow one another from the epoch on, and a timestamp
-- of the minimum period after the last one is accepted.
pub record IsClock (F : Frame) (X : Clock) : Type 0 where
  pub aura_slot_duration : (P : TimestampConfig) → F.aura_slot_duration P ≡ P.minimum_period * 2
  pub slot : (now duration : ℕ) → X.from_timestamp_and_slot_duration now duration ≡ now / duration
  pub accepts_later :
      (P : TimestampConfig) (last now : ℕ)
      → last + P.minimum_period ≤ now
      → X.accepts P last now ≡ true

module _ (X : Clock) where
  -- The closure in `new_partial` and `new_full`: the slot and the timestamp of a block.
  abbrev pub create_inherent_data_providers : ℕ → ℕ → ℕ × ℕ
  create_inherent_data_providers slot_duration now =
      (X.from_timestamp_and_slot_duration now slot_duration, now)

module _ (F : Frame) (X : Clock) where
  abbrev pub inherents : ℕ → ℕ × ℕ
  inherents now = create_inherent_data_providers X (api_slot_duration F) now

  -- Each block in a later slot than the one before, and stamped in the first half of its slot.
  abbrev pub InTime : ℕ → List ℕ → Type 0
  InTime last [] = Unit {0}
  InTime last (now ∷ blocks) =
      ((inherents last).0 < (inherents now).0)
      × ((inherents now).1 - (inherents now).0 * slot_duration ≤ slot_duration / 2)
      × InTime now blocks

  abbrev pub AllAccepted : ℕ → List ℕ → Type 0
  AllAccepted last [] = Unit {0}
  AllAccepted last (now ∷ blocks) =
      (X.accepts timestamp_config (inherents last).1 (inherents now).1 ≡ true)
      × AllAccepted now blocks

module _ (F : Frame) (X : Clock) (L : IsClock F X) where
  -- The runtime answers with its own slot duration.
  api_slot_duration_lem : api_slot_duration F ≡ slot_duration
  api_slot_duration_lem = L.aura_slot_duration timestamp_config

  slot_lem : (now : ℕ) → (inherents F X now).0 ≡ now / slot_duration
  slot_lem now = L.slot now (api_slot_duration F) ∙ ap (λ d. now / d) api_slot_duration_lem

  all_accepted :
      (first : ℕ) (blocks : List ℕ)
      → first - (inherents F X first).0 * slot_duration ≤ slot_duration / 2
      → InTime F X first blocks
      → AllAccepted F X first blocks
  all_accepted first [] early in_time = tt
  all_accepted first (now ∷ blocks) early (later, early', in_time) = (
    L.accepts_later timestamp_config first now (omega (arith, slot_lem first, slot_lem now)),
    all_accepted now blocks early' in_time,
  )

  -- The runtime's slot duration, which is derived from the minimum period of its timestamps, is
  -- the configured one; and blocks that carry the node's inherents, each in a later slot than
  -- the one before and stamped in the first half of its slot, have timestamps that the runtime
  -- accepts.
  pub slots_accepted :
      (first : ℕ) (blocks : List ℕ)
      → first - (inherents F X first).0 * slot_duration ≤ slot_duration / 2
      → InTime F X first blocks
      → (api_slot_duration F ≡ slot_duration) × AllAccepted F X first blocks
  slots_accepted first blocks early in_time =
      (api_slot_duration_lem, all_accepted first blocks early in_time)
