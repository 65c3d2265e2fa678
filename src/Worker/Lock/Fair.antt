-- ===== src/Worker/Lock/Fair.antt =====
-- What each call of a process on a host keeps of the locks of all processes.
use mathlib.Core.Path.{subst}
use phyai_saas_train_vla.Prelude.{
  ℕ, ◌≡◌, ◌≢◌, refl, sym, ◌∙◌, ap, String, Bool, true, false, none, some, eqb, arith, Option-cases,
  Result-cases, ok, inl, inr, if◌then◌else◌,
}
use phyai_saas_train_vla.Worker.Lock.{
  System, View, WorkerLock, Held, Spares, IsSystem, acquire, release,
}

pub record Hosted (K F : Type 0) : Type 0 where
  pub system : K
  pub locks : ℕ → WorkerLock F

module _ {K F : Type 0} where
  -- The process `i` alone, and the host after a call of it.
  abbrev pub seen_by : ℕ → Hosted K F → Held K F
  seen_by i s = record { lock = s.locks i; system = s.system }

  abbrev pub after : ℕ → Hosted K F → Held K F → Hosted K F
  after i s h = record { system = h.system; locks = λ j. if eqb j i then h.lock else s.locks j }

module _ {K F : Type 0} (system : System K F) where
  -- A process that dies has its descriptor closed by the system.
  abbrev pub dead : Held K F → Held K F
  dead h = elim h.lock.fd [
    | none ↦ h
    | some fd ↦ record { lock = record h.lock { fd = none }; system = system.close fd h.system }
  ]

module _ {K F : Type 0} (system : System K F) (view : View K F)
    (documented : IsSystem system view) where
  -- Every process that thinks it has the lock has it, and no two share a descriptor.
  pub record IsFair (s : Hosted K F) : Type 0 where
    pub owns :
        (i : ℕ) (d : F)
        → (s.locks i).fd ≡ some d
        → (view.held s.system d ≡ true) × (view.file s.system d ≡ (s.locks i).path)
    pub apart : (i j : ℕ) (d : F) → (s.locks i).fd ≡ some d → (s.locks j).fd ≡ some d → i ≡ j

  -- What a call of the process `i` keeps.
  pub record Keeps (i : ℕ) (s : Hosted K F) (h : Held K F) : Type 0 where
    mine :
        (d : F)
        → h.lock.fd ≡ some d
        → (view.held h.system d ≡ true) × (view.file h.system d ≡ h.lock.path)
    others :
        (j : ℕ) (d : F)
        → j ≢ i
        → (s.locks j).fd ≡ some d
        → (view.held h.system d ≡ true)
          × (view.file h.system d ≡ (s.locks j).path)
          × (h.lock.fd ≢ some d)

  pub after-IsFair :
      (i : ℕ) (s : Hosted K F) (h : Held K F) → IsFair s → Keeps i s h → IsFair (after i s h)
  after-IsFair i s h fair keeps = record {
    owns = λ j. owns_at j (eqb j i) refl;
    apart = λ j k. apart_at j k (eqb j i) (eqb k i) refl refl;
  }
    where
      owns_at :
          (j : ℕ) (b : Bool)
          → eqb j i ≡ b
          → (d : F) → (if b then h.lock else s.locks j).fd ≡ some d
          → (view.held h.system d ≡ true)
            × (view.file h.system d ≡ (if b then h.lock else s.locks j).path)
      owns_at j true e d has = keeps.mine d has
      owns_at j false e d has =
          let kept = keeps.others j d (λ same. ground arith) has in (kept.0, kept.1)

      apart_at :
          (j k : ℕ) (b c : Bool)
          → eqb j i ≡ b
          → eqb k i ≡ c
          → (d : F) → (if b then h.lock else s.locks j).fd ≡ some d
          → (if c then h.lock else s.locks k).fd ≡ some d
          → j ≡ k
      apart_at j k true true e f d p q = ground arith
      apart_at j k true false e f d p q = elim ((keeps.others k d (λ same. ground arith) q).2 p) [ ]
      apart_at j k false true e f d p q = elim ((keeps.others j d (λ same. ground arith) p).2 q) [ ]
      apart_at j k false false e f d p q = fair.apart j k d p q

  -- A call that spares all descriptors but one, which no other process has, keeps the others' locks.
  spared :
      (i : ℕ) (s : Hosted K F) (k : K) (d : F)
      → IsFair s
      → ((j : ℕ) → j ≢ i → (s.locks j).fd ≢ some d)
      → Spares view d s.system k
      → (j : ℕ) (e : F) → j ≢ i
      → (s.locks j).fd ≡ some e
      → (view.held k e ≡ true) × (view.file k e ≡ (s.locks j).path) × (e ≢ d)
  spared i s k d fair nobody spares j e n has =
      let differs = λ (same : e ≡ d). nobody j n (has ∙ ap some same) in
      let kept = spares e differs in
      let owned = fair.owns j e has in (kept.0 ∙ owned.0, kept.1 ∙ owned.1, differs)

  none_given : {d : F} → none ≡ some d → ⊥
  none_given e = cc

  some_injective : {d e : F} → some d ≡ some e → d ≡ e
  some_injective e = cc

  not_both : {b : Bool} → b ≡ true → b ≡ false → ⊥
  not_both p q = cc

  idle-Keeps : (i : ℕ) (s : Hosted K F) → IsFair s → Keeps i s (seen_by i s)
  idle-Keeps i s fair = record {
    mine = fair.owns i;
    others = λ j d n has.
        let owned = fair.owns j d has in (owned.0, owned.1, λ mine. n (fair.apart j i d has mine));
  }

  -- A descriptor of the process itself is no other's.
  own-nobody :
      (i : ℕ) (s : Hosted K F) (d : F)
      → IsFair s
      → (s.locks i).fd ≡ some d
      → (j : ℕ) → j ≢ i
      → (s.locks j).fd ≢ some d
  own-nobody i s d fair mine j n his = n (fair.apart j i d his mine)

  lost-Keeps :
      (i : ℕ) (s : Hosted K F) (k : K) (d : F) (lock : WorkerLock F)
      → lock.fd ≡ none
      → IsFair s
      → ((j : ℕ) → j ≢ i → (s.locks j).fd ≢ some d)
      → Spares view d s.system k
      → Keeps i s (record { lock = lock; system = k })
  lost-Keeps i s k d lock lost fair nobody spares = record {
    mine = λ e has. elim (none_given (sym lost ∙ has)) [ ];
    others = λ j e n has.
        let kept = spared i s k d fair nobody spares j e n has in
        (kept.0, kept.1, λ has'. none_given (sym lost ∙ has'));
  }

  won-Keeps :
      (i : ℕ) (s : Hosted K F) (k : K) (d : F)
      → IsFair s
      → ((j : ℕ) → j ≢ i → (s.locks j).fd ≢ some d)
      → Spares view d s.system k
      → view.held k d ≡ true
      → view.file k d ≡ (s.locks i).path
      → Keeps i s (record { lock = record (s.locks i) { fd = some d }; system = k })
  won-Keeps i s k d fair nobody spares held stands = record {
    mine = λ e has.
        subst (λ x. (view.held k x ≡ true) × (view.file k x ≡ (s.locks i).path))
          (some_injective has) (held, stands);
    others = λ j e n has.
        let kept = spared i s k d fair nobody spares j e n has in
        (kept.0, kept.1, λ has'. kept.2 (sym (some_injective has')));
  }

  both_spared :
      (d : F) (k k' k'' : K) → Spares view d k k' → Spares view d k' k'' → Spares view d k k''
  both_spared d k k' k'' p q other n =
      ((q other n).0 ∙ (p other n).0, (q other n).1 ∙ (p other n).1)

  unopened-Keeps :
      (i : ℕ) (s : Hosted K F) (k : K)
      → IsFair s
      → (s.locks i).fd ≡ none
      → ((d : F) → (view.held k d ≡ view.held s.system d) × (view.file k d ≡ view.file s.system d))
      → Keeps i s (record { lock = s.locks i; system = k })
  unopened-Keeps i s k fair idle same = record {
    mine = λ d has. elim (none_given (sym idle ∙ has)) [ ];
    others = λ j d n has.
        let owned = fair.owns j d has in
        ((same d).0 ∙ owned.0, (same d).1 ∙ owned.1, λ has'. none_given (sym idle ∙ has'));
  }

  -- A new descriptor is no process's.
  new-nobody :
      (s : Hosted K F) (path : String) (d : F)
      → IsFair s
      → (system.open_file path s.system).0 ≡ ok d
      → (j : ℕ) → (s.locks j).fd ≢ some d
  new-nobody s path d fair e j has =
      not_both (fair.owns j d has).0 (documented.opens path s.system d e).0

  opened-Keeps :
      (i : ℕ) (s : Hosted K F) (d : F)
      → IsFair s
      → (s.locks i).fd ≡ none
      → (system.open_file (s.locks i).path s.system).0 ≡ ok d
      → Keeps i s (acquire system (seen_by i s)).1
  unfolding acquire
  opened-Keeps i s d fair idle e =
      let path = (s.locks i).path in
      let k = (system.open_file path s.system).1 in
      let nobody = λ (j : ℕ) (n : j ≢ i). new-nobody s path d fair e j in
      let opened = documented.opens path s.system d e in
      let spares =
        both_spared d s.system k (system.flock d k).1 opened.2 (documented.locks_spare d k) in
      elim (Result-cases (system.flock d k).0) [
        | inr (text, failed) ↦
            rw (idle, e, failed)
              (lost-Keeps i s (system.flock d k).1 d (s.locks i) idle fair nobody spares)
        | inl (true, granted) ↦
            let locked = documented.locks d k granted in
            rw (idle, e, granted)
              (won-Keeps i s (system.flock d k).1 d fair nobody spares locked.0
                (locked.1 ∙ opened.1))
        | inl (false, refused) ↦
            rw (idle, e, refused)
              (lost-Keeps i s (system.close d (system.flock d k).1) d (s.locks i) idle fair nobody (
                both_spared d s.system (system.flock d k).1 (system.close d (system.flock d k).1)
                  spares (documented.closes d (system.flock d k).1)))
      ]

  pub acquire-Keeps :
      (i : ℕ) (s : Hosted K F) → IsFair s → Keeps i s (acquire system (seen_by i s)).1
  unfolding acquire
  acquire-Keeps i s fair = elim (Option-cases (s.locks i).fd) [
    | inr (d, has) ↦ rw has (idle-Keeps i s fair)
    | inl idle ↦ elim (Result-cases (system.open_file (s.locks i).path s.system).0) [
      | inl (d, e) ↦ opened-Keeps i s d fair idle e
      | inr (text, e) ↦
          rw (idle, e)
            (unopened-Keeps i s (system.open_file (s.locks i).path s.system).1 fair idle
              (documented.open_fails (s.locks i).path text s.system e))
    ]
  ]

  pub release-Keeps : (i : ℕ) (s : Hosted K F) → IsFair s → Keeps i s (release system (seen_by i s))
  unfolding release
  release-Keeps i s fair = elim (Option-cases (s.locks i).fd) [
    | inl idle ↦ rw idle (idle-Keeps i s fair)
    | inr (d, has) ↦ rw has (
        lost-Keeps i s (system.close d (system.unlock d s.system)) d
          (record (s.locks i) { fd = none }) refl fair (own-nobody i s d fair has)
          (both_spared d s.system (system.unlock d s.system)
            (system.close d (system.unlock d s.system)) (documented.unlocks d s.system)
            (documented.closes d (system.unlock d s.system))))
  ]

  pub dead-Keeps : (i : ℕ) (s : Hosted K F) → IsFair s → Keeps i s (dead system (seen_by i s))
  dead-Keeps i s fair = elim (Option-cases (s.locks i).fd) [
    | inl idle ↦ rw idle (idle-Keeps i s fair)
    | inr (d, has) ↦ rw has (
        lost-Keeps i s (system.close d s.system) d (record (s.locks i) { fd = none }) refl fair
          (own-nobody i s d fair has) (documented.closes d s.system))
  ]
