-- ===== src/Listener/Socket/Stream.antt =====
-- What a stream gives, however it is cut into reads.
use scety.Prelude.{
  ℕ, zero, suc, ◌<◌, ◌≡◌, refl, ap, sym, subst, ◌∙◌, ◌⊎◌, inl, inr, true, List, [], ◌∷◌, ◌++◌,
  arith, take, drop, is_empty, if_cases, append_assoc, take-append-drop, Any, here, there,
}
use scety.Text.Utf8.{Bytes}
use scety.Listener.Socket.{Arrival, arrived, failed, got, read_error, read}

-- The bytes that arrive, in order.
unfoldable pub stream : List Arrival → Bytes
stream [] = []
stream (failed ∷ s) = stream s
stream (arrived b ∷ s) = b ++ stream s

got_inj : (a b : Bytes) → got a ≡ got b → a ≡ b
got_inj a b e = ground arith

is_empty-nil : (w : Bytes) → is_empty w ≡ true → w ≡ []
is_empty-nil [] e = refl
is_empty-nil (x ∷ w) e = absurd (cc)

pub read-stream :
    (room : ℕ) (s : List Arrival) (bytes : Bytes)
    → (read room s).0 ≡ got bytes
    → bytes ++ stream (read room s).1 ≡ stream s
unfolding read stream
read-stream room [] bytes e = ap (λ b. b ++ []) (sym (got_inj [] bytes e))
read-stream room (failed ∷ s) bytes e = absurd (cc)
read-stream room (arrived b ∷ s) bytes e =
    subst (λ w. w ++ stream (read room (arrived b ∷ s)).1 ≡ b ++ stream s)
      (got_inj (take room b) bytes e)
      (if_cases (λ (t : List Arrival). take room b ++ stream t ≡ b ++ stream s)
        (is_empty (drop room b)) s (arrived (drop room b) ∷ s)
        (λ none_left.
          ap (λ w. take room b ++ w)
            (ap (λ w. w ++ stream s) (sym (is_empty-nil (drop room b) none_left)))
          ∙ sym (append_assoc (take room b) (drop room b) (stream s))
          ∙ ap (λ w. w ++ stream s) (take-append-drop room b))
        (λ _.
          sym (append_assoc (take room b) (drop room b) (stream s))
          ∙ ap (λ w. w ++ stream s) (take-append-drop room b)))

-- The next read ends the stream: nothing is left, or a read of no byte comes next.
abbrev pub Ended : List Arrival → Type 0
Ended s = (s ≡ []) ⊎ ((t : List Arrival) × (s ≡ arrived [] ∷ t))

abbrev pub Fails : List Arrival → Type 0
Fails s = Any (λ a. a ≡ failed) s

-- With room for a byte, a read gives none only at the end.
pub read-Ended :
    (room : ℕ) (s : List Arrival) (bytes : Bytes)
    → 0 < room
    → (read room s).0 ≡ got bytes
    → is_empty bytes ≡ true
    → Ended s
unfolding read
read-Ended room [] bytes some_room came nothing = inl refl
read-Ended room (failed ∷ s) bytes some_room came nothing = absurd (cc)
read-Ended room (arrived [] ∷ s) bytes some_room came nothing = inr (s, refl)
read-Ended zero (arrived (x ∷ b) ∷ s) bytes some_room came nothing = absurd (omega arith)
read-Ended (suc room) (arrived (x ∷ b) ∷ s) bytes some_room came nothing =
    absurd (ground (arith, got_inj (take (suc room) (x ∷ b)) bytes came))

-- Only a failure makes a read fail, and what is left after a read fails only if the stream did.
pub read-Fails : (room : ℕ) (s : List Arrival) → (read room s).0 ≡ read_error → Fails s
unfolding read
read-Fails room [] e = absurd (cc)
read-Fails room (failed ∷ s) e = here refl
read-Fails room (arrived b ∷ s) e = absurd (cc)

pub read_rest-Fails : (room : ℕ) (s : List Arrival) → Fails (read room s).1 → Fails s
unfolding read
read_rest-Fails room [] f = f
read_rest-Fails room (failed ∷ s) f = there f
read_rest-Fails room (arrived b ∷ s) f = there (
    if_cases (λ (t : List Arrival). Fails t → Fails s) (is_empty (drop room b)) s
      (arrived (drop room b) ∷ s) (λ _ g. g) (λ _ g. elim g [ here e ↦ absurd (cc) | there h ↦ h ])
      f)
