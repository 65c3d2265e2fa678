-- ===== src/Worker/Lock/Exclusion.antt =====
-- Several processes on one host, each with a lock of its own: they take it, give it back, or die.
use phyai_saas_train_vla.Prelude.{
  ℕ, ◌≡◌, ◌≢◌, refl, sym, ◌∙◌, ap, Bool, true, false, none, some, Option-cases, inl, inr, ◌&&◌,
}
use phyai_saas_train_vla.Worker.Lock.{System, View, IsSystem, acquire, release, is_held}
use phyai_saas_train_vla.Worker.Lock.Fair.{
  Hosted, seen_by, after, dead, IsFair, after-IsFair, acquire-Keeps, release-Keeps, dead-Keeps,
}

module _ {K F : Type 0} (system : System K F) where
  pub data Step (old : Hosted K F) : Hosted K F → Type 0 where
    acquires : (i : ℕ) → Step old (after i old (acquire system (seen_by i old)).1)
    releases : (i : ℕ) → Step old (after i old (release system (seen_by i old)))
    dies : (i : ℕ) → Step old (after i old (dead system (seen_by i old)))

  pub data Steps (start : Hosted K F) : Hosted K F → Type 0 where
    at_start : Steps start start
    and_then : {old new : Hosted K F} → Steps start old → Step old new → Steps start new

module _ {K F : Type 0} (system : System K F) (view : View K F)
    (documented : IsSystem system view) where
  none_there : {d : F} → none ≡ some d → ⊥
  none_there e = cc

  none_held : {b : Bool} → b ≡ true → b ≡ false → ⊥
  none_held p q = cc

  Steps-IsFair :
      {start s : Hosted K F}
      → Steps system start s
      → IsFair system view documented start
      → IsFair system view documented s
  Steps-IsFair at_start fair = fair
  Steps-IsFair (and_then steps step) fair = Step-IsFair step (Steps-IsFair steps fair)
    where
      Step-IsFair :
          {old new : Hosted K F}
          → Step system old new
          → IsFair system view documented old
          → IsFair system view documented new
      Step-IsFair {old} (acquires i) f =
          after-IsFair system view documented i old (acquire system (seen_by i old)).1 f
            (acquire-Keeps system view documented i old f)
      Step-IsFair {old} (releases i) f =
          after-IsFair system view documented i old (release system (seen_by i old)) f
            (release-Keeps system view documented i old f)
      Step-IsFair {old} (dies i) f =
          after-IsFair system view documented i old (dead system (seen_by i old)) f
            (dead-Keeps system view documented i old f)

  same_holder :
      {start s : Hosted K F} (i j : ℕ)
      → ((i : ℕ) → (start.locks i).fd ≡ none)
      → Steps system start s
      → is_held (s.locks i) ≡ true
      → is_held (s.locks j) ≡ true
      → (s.locks i).path ≡ (s.locks j).path
      → i ≡ j
  unfolding is_held
  same_holder {start} {s} i j nobody steps p q same =
      let fair = Steps-IsFair steps start-IsFair in
      elim (Option-cases (s.locks i).fd) [
        | inl idle ↦ elim (none_held p (rw idle refl)) [ ]
        | inr (d, mine) ↦ elim (Option-cases (s.locks j).fd) [
          | inl idle ↦ elim (none_held q (rw idle refl)) [ ]
          | inr (e, his) ↦
              let d_owned = fair.owns i d mine in
              let e_owned = fair.owns j e his in
              let one =
                documented.exclusive s.system d e d_owned.0 e_owned.0
                  (d_owned.1 ∙ same ∙ sym e_owned.1) in
              fair.apart i j d mine (his ∙ ap some (sym one))
        ]
      ]
    where
      start-IsFair : IsFair system view documented start
      start-IsFair = record {
        owns = λ i d has. elim (none_there (sym (nobody i) ∙ has)) [ ];
        apart = λ i j d has _. elim (none_there (sym (nobody i) ∙ has)) [ ];
      }

  -- However processes take the lock, give it back and die, from a start where none has it: no two
  -- processes have the lock on one file, if the system keeps to its documentation.
  pub one_holder :
      {start s : Hosted K F} (i j : ℕ)
      → ((i : ℕ) → (start.locks i).fd ≡ none)
      → Steps system start s
      → i ≢ j
      → (s.locks i).path ≡ (s.locks j).path
      → (is_held (s.locks i) && is_held (s.locks j)) ≡ false
  one_holder {start} {s} i j nobody steps differ same =
      neither (is_held (s.locks i)) (is_held (s.locks j))
        (λ p q. differ (same_holder i j nobody steps p q same))
    where
      neither : (b c : Bool) → (b ≡ true → c ≡ true → ⊥) → (b && c) ≡ false
      neither true true h = elim (h refl refl) [ ]
      neither true false h = refl
      neither false c h = refl
