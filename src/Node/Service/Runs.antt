-- ===== src/Node/Service/Runs.antt =====
-- How a sequence of actions ends, from how its steps do.
use mathlib.Core.List.{append-nil, append_assoc}
use kontracts.Prelude.{
  ◌≡◌, ◌⊎◌, refl, sym, ◌∙◌, ap, inl, inr, Bool, true, false, Bool-cases, some, List, [], ◌∷◌, ◌++◌,
  String,
}
use kontracts.Prelude.Outcome.{Outcome, ok, err, panic}
use kontracts.Node.Service.{
  Configuration, Parts, Action, ServiceError, failed, Node, ◌>>=◌, ◌>>◌, done, stop, when, act,
  Substrate, call,
}
use kontracts.Node.Service.Started.{only_if}

module _ {P : Parts} (X : Substrate P) (config : Configuration) where
  -- Why a node stops with the error `e` before the actions `rest`: the first of them is a call that
  -- fails, or a remote keystore is asked for.
  abbrev pub Stops : ServiceError P → List (Action P) → Type 0
  Stops e rest =
      ((a : Action P) × (more : List (Action P)) × (rest ≡ a ∷ more)
        × (X.succeeds a ≡ false)
        × (e ≡ failed a))
      ⊎ ((url : String) × (config.keystore_remote ≡ some url))

  -- Does the actions `es` and gives `v`, or stops before some of them.
  abbrev pub Runs : {A : Type 0} → Node P A → List (Action P) → A → Type 0
  Runs {A} m es v =
      (log : List (Action P))
      → (m log ≡ (ok v, log ++ es))
        ⊎ ((before : List (Action P)) × (rest : List (Action P)) × (e : ServiceError P) × (before
                ++ rest
              ≡ es)
            × (m log ≡ (err e, log ++ before))
            × Stops e rest)

  pub call-Runs : {A : Type 0} (a : Action P) (v : A) → Runs (call X a v) (a ∷ []) v
  call-Runs a v log = elim (Bool-cases (X.succeeds a)) [
    | inl yes_ ↦ inl (rw yes_ refl)
    | inr no_ ↦ inr (
      [],
      a ∷ [],
      failed a,
      refl,
      rw no_ (ap (λ l. (err (failed a), l)) (sym (append-nil log))),
      inl (a, [], refl, no_, refl),
    )
  ]

  pub act-Runs : (a : Action P) → Runs (act a) (a ∷ []) tt
  act-Runs a log = inl refl

  pub done-Runs : {A : Type 0} (v : A) → Runs (done v) [] v
  done-Runs v log = inl (ap (λ l. (ok v, l)) (sym (append-nil log)))

  pub when-Runs :
      (b : Bool) {m : Node P (Unit {0})} {es : List (Action P)}
      → Runs m es tt
      → Runs (when b m) (only_if b es) tt
  when-Runs true runs = runs
  when-Runs false runs = done-Runs tt

  Stops-more :
      (e : ServiceError P) (rest es : List (Action P)) → Stops e rest → Stops e (rest ++ es)
  Stops-more e rest es (inl (a, more, first, fails, same)) =
      inl (a, more ++ es, ap (λ l. l ++ es) first, fails, same)
  Stops-more e rest es (inr remote) = inr remote

  -- How a sequence ends, from how its first part did.
  abbrev then_do :
      {A B : Type 0}
      → (A → Node P B)
      → Outcome (ServiceError P) A × List (Action P)
      → Outcome (ServiceError P) B × List (Action P)
  then_do f p = elim p.0 [ ok a ↦ f a p.1 | err e ↦ (err e, p.1) | panic ↦ (panic, p.1) ]

  pub bind-Runs :
      {A B : Type 0} (m : Node P A) (f : A → Node P B) {es es' : List (Action P)} (v : A) {w : B}
      → Runs m es v
      → Runs (f v) es' w
      → Runs (m >>= f) (es ++ es') w
  unfolding ◌>>=◌
  bind-Runs m f {es} {es'} v {w} runs next log = elim (runs log) [
    | inr (before, rest, e, cut, at, why) ↦ inr (
      before,
      rest ++ es',
      e,
      sym (append_assoc before rest es') ∙ ap (λ l. l ++ es') cut,
      ap (then_do f) at,
      Stops-more e rest es' why,
    )
    | inl at ↦ elim (next (log ++ es)) [
      | inl at' ↦ inl (ap (then_do f) at ∙ at' ∙ ap (λ l. (ok w, l)) (append_assoc log es es'))
      | inr (before, rest, e, cut, at', why) ↦ inr (
        es ++ before,
        rest,
        e,
        append_assoc es before rest ∙ ap (λ l. es ++ l) cut,
        ap (then_do f) at ∙ at' ∙ ap (λ l. (err e, l)) (append_assoc log es before),
        why,
      )
    ]
  ]

  -- A step of known outcome, then the rest.
  pub then-call :
      {A B : Type 0} (a : Action P) (v : A) (f : A → Node P B) {es : List (Action P)} {w : B}
      → Runs (f v) es w
      → Runs (call X a v >>= f) (a ∷ es) w
  then-call a v f next = bind-Runs (call X a v) f v (call-Runs a v) next

  pub then-act :
      {B : Type 0} (a : Action P) (m : Node P B) {es : List (Action P)} {w : B}
      → Runs m es w
      → Runs (act a >> m) (a ∷ es) w
  then-act a m next = bind-Runs (act a) (λ _. m) tt (act-Runs a) next

  pub stop-Runs :
      (e : ServiceError P) (url : String) → config.keystore_remote ≡ some url → Runs (stop e) [] tt
  stop-Runs e url remote log =
      inr ([], [], e, refl, ap (λ l. (err e, l)) (sym (append-nil log)), inr (url, remote))
