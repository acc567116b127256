-- ===== src/Cli/Triples.antt =====
-- Commands under a policy on their calls: what holds before a command, and after it if it goes on.
use scety.Prelude.{
  ◌≡◌, refl, ◌⊎◌, inl, inr, Bool, true, false, Option, none, some, [], ◌∷◌, if◌then◌else◌,
  Bool-cases,
}
use scety.Cli.{
  Call, World, History, Outcome, ok, err, exit, Command, pure, fail, ask, answer_or_fail, bind,
  ◌>>=◌, when, call, call_status, Lookup, lookup_failed, absent, found, is_active,
}
use scety.Text.{codes, text_eq}
use scety.Cli.Install.{found_or_fail, look_up}

-- The property held at a moment before.
pub data Before (P : History → Type 0) : History → Type 0 where
  now : {h : History} → P h → Before P h
  earlier : {h : History} {c : Call} → Before P h → Before P (c ∷ h)

-- The call was made, and it returned without an error.
abbrev pub Succeeded : World → Call → History → Type 0
Succeeded w c [] = ⊥
Succeeded w c (d ∷ h) = ((d ≡ c) × (w.returns h c ≡ true)) ⊎ Succeeded w c h

module _ (Allowed : History → Call → Type 0) where
  -- Every call was allowed when it was made.
  abbrev pub Safe : History → Type 0
  Safe [] = Unit
  Safe (c ∷ h) = Allowed h c × Safe h

  abbrev pub Post : {A : Type 0} → (A → History → Type 0) → Outcome A × History → Type 0
  Post Q (ok a, h) = Safe h × Q a h
  Post Q (err, h) = Safe h
  Post Q (exit code, h) = Safe h

  -- From a safe history with `P`, the command makes a safe one, with `Q` if it goes on.
  pub record Triple {A : Type 0} (P : History → Type 0) (m : Command A) (Q : A → History → Type 0)
      : Type 0 where
    pub run : (h : History) → Safe h → P h → Post Q (m h)

  Post-bind :
      {A B : Type 0} (Q : A → History → Type 0) (f : A → Command B) (R : B → History → Type 0)
      (r : Outcome A × History)
      → Post Q r
      → ((a : A) → Triple (Q a) (f a) R)
      → Post R (bind r f)
  Post-bind Q f R (ok a, h) p k = (k a).run h p.0 p.1
  Post-bind Q f R (err, h) p k = p
  Post-bind Q f R (exit code, h) p k = p

  pub bind-Triple :
      {A B : Type 0} {P : History → Type 0} {m : Command A} {Q : A → History → Type 0}
      {f : A → Command B} {R : B → History → Type 0}
      → Triple P m Q
      → ((a : A) → Triple (Q a) (f a) R)
      → Triple P (m >>= f) R
  bind-Triple {m = m} {Q = Q} {f = f} {R = R} t k = record {
    run = λ h s p. Post-bind Q f R (m h) (t.run h s p) k;
  }

  -- What is asked was so at a moment before.
  pub ask-Triple :
      {A : Type 0} (P : History → Type 0) (q : History → A)
      → Triple P (ask q) (λ a h. P h × Before (λ k. q k ≡ a) h)
  ask-Triple P q = record { run = λ h s p. (s, (p, now refl)) }

  pub look_up-Triple :
      (P : History → Type 0) (q : History → Lookup)
      → Triple P (look_up q) (λ b h. P h × Before (λ k. q k ≡ (if b then found else absent)) h)
  look_up-Triple P q = record { run = λ h s p. go (q h) h s p refl }
    where
      go :
          (l : Lookup) (h : History)
          → Safe h
          → P h
          → q h ≡ l
          → Post
              (λ b k. P k × Before (λ j. q j ≡ (if b then found else absent)) k)
              (found_or_fail l h)
      go lookup_failed h s p e = s
      go absent h s p e = (s, (p, now e))
      go found h s p e = (s, (p, now e))

  -- A command goes on behind a call only when the call has returned without an error.
  pub call_returned-Triple :
      {P : History → Type 0} (Q : History → Type 0) (w : World) (c : Call)
      → ((h : History) → P h → Allowed h c × (w.returns h c ≡ true → Q (c ∷ h)))
      → Triple P (call w c) (λ _ h. Q h)
  call_returned-Triple Q w c a = record {
    run = λ h s p. elim (Bool-cases (w.returns h c)) [
      | inl e ↦ rw e (((a h p).0, s), (a h p).1 e)
      | inr e ↦ rw e ((a h p).0, s)
    ];
  }

  pub call-Triple :
      {P : History → Type 0} (Q : History → Type 0) (w : World) (c : Call)
      → ((h : History) → P h → Allowed h c × Q (c ∷ h))
      → Triple P (call w c) (λ _ h. Q h)
  call-Triple Q w c a = call_returned-Triple Q w c (λ h p. ((a h p).0, λ _. (a h p).1))

  pub call_status-Triple :
      {P : History → Type 0} (Q : History → Type 0) (w : World) (c : Call)
      → ((h : History) → P h → Allowed h c × Q (c ∷ h))
      → Triple P (call_status w c) (λ _ h. Q h)
  call_status-Triple Q w c a = record {
    run = λ h s p. elim (Bool-cases (w.returns h c)) [
      | inl e ↦ rw e (((a h p).0, s), (a h p).1)
      | inr e ↦ rw e ((a h p).0, s)
    ];
  }

  pub if-Triple :
      {A : Type 0} {P : History → Type 0} {Q : A → History → Type 0} (b : Bool) {m k : Command A}
      → (b ≡ true → Triple P m Q)
      → (b ≡ false → Triple P k Q)
      → Triple P (if b then m else k) Q
  if-Triple true t u = t refl
  if-Triple false t u = u refl

  pub pure-Triple :
      {A : Type 0} {P : History → Type 0} {Q : A → History → Type 0} (a : A)
      → ((h : History) → P h → Q a h)
      → Triple P (pure a) Q
  pure-Triple a q = record { run = λ h s p. (s, q h p) }

  pub fail-Triple : {A : Type 0} {P : History → Type 0} {Q : A → History → Type 0} → Triple P fail Q
  fail-Triple = record { run = λ h s p. s }

  pub weaken-Triple :
      {A : Type 0} {P R : History → Type 0} {m : Command A} {Q : A → History → Type 0}
      → ((h : History) → R h → P h)
      → Triple P m Q
      → Triple R m Q
  weaken-Triple f t = record { run = λ h s r. t.run h s (f h r) }

  pub when-Triple :
      {P Q : History → Type 0} (b : Bool) {m : Command Unit}
      → (b ≡ true → Triple P m (λ _. Q))
      → ((h : History) → P h → Q h)
      → Triple P (when b m) (λ _. Q)
  when-Triple true t q = t refl
  when-Triple false t q = pure-Triple tt q

  pub answer-Triple :
      {A : Type 0} (P : History → Type 0) (o : Option A) → Triple P (answer_or_fail o) (λ _. P)
  answer-Triple P none = fail-Triple
  answer-Triple P (some a) = record { run = λ h s p. (s, p) }

  -- Asking whether the service is active changes nothing.
  pub is_active-Triple : (P : History → Type 0) (w : World) → Triple P (is_active w) (λ _. P)
  is_active-Triple P w = bind-Triple (ask-Triple P w.is_active) (λ o.
      bind-Triple (answer-Triple _ o)
        (λ stdout. pure-Triple (text_eq stdout (codes "active")) (λ h p. p.0)))
