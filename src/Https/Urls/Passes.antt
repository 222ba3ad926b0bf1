-- ===== src/Https/Urls/Passes.antt =====
-- The passes of `MultipleDecode` and the lengths of their texts.
use libwebsocket_component.Prelude.{
  ℕ, zero, suc, ◌≤◌, ◌<◌, ◌≡◌, ◌≢◌, refl, ◌⊎◌, inl, inr, arith, Bool, true, false, ◌||◌, [], ◌∷◌,
  ◌++◌, ◌==◌, length, Outcome, done, aborted, unfinished, ◌>>=◌, Bool-cases, All,
}
use libwebsocket_component.Https.Query.{Text}
use libwebsocket_component.Https.Urls.{
  str_to_bin, escape_twice, escape, decode_round, pass_loop, decode_pass, multiple_loop,
  multiple_decode,
}

-- A round takes its character and maybe more, and more than that if it finds more to decode.
abbrev Takes : Text → Outcome (Bool × ℕ × Text) → Type 0
Takes cs (done (again, ch, rest)) =
    (length rest ≤ length cs) × (again ≡ true → length rest < length cs)
Takes cs aborted = Unit {0}
Takes cs unfinished = ⊥

escape_twice-Takes : (cs : Text) → Takes (0 ∷ cs) (escape_twice cs)
unfolding escape_twice
escape_twice-Takes [] = tt
escape_twice-Takes (a ∷ []) = (omega arith, λ e. omega arith)
escape_twice-Takes (a ∷ b ∷ r) = (omega arith, λ e. omega arith)

decode_round-Takes : (c : ℕ) (cs : Text) → Takes cs (decode_round c cs)
unfolding decode_round
decode_round-Takes c cs = elim (Bool-cases (c == b'%')) [
  | inl e ↦ rw e (go cs)
  | inr e ↦ rw e (omega arith, λ f. cc)
]
  where
    longer :
        (a b : ℕ) (r : Text) (m : Outcome (Bool × ℕ × Text)) → Takes (0 ∷ r) m → Takes (a ∷ b ∷ r) m
    longer a b r (done (again, ch, rest)) (l, h) = (omega arith, λ e. omega arith)
    longer a b r aborted h = tt
    longer a b r unfinished h = elim h [ ]

    go : (cs : Text) → Takes cs (escape cs)
    go [] = unfold escape in tt
    go (a ∷ []) = unfold escape in (omega arith, λ e. cc)
    go (a ∷ b ∷ r) =
        unfold escape in
        elim (Bool-cases (str_to_bin a b == b'%')) [
          | inl e ↦ rw e (longer a b r (escape_twice r) (escape_twice-Takes r))
          | inr e ↦ rw e (omega arith, λ f. cc)
        ]

-- A pass in the same way, on the whole text.
abbrev Shrinks : Text → Outcome (Bool × Text) → Type 0
Shrinks s (done (again, text)) = (length text ≤ length s) × (again ≡ true → length text < length s)
Shrinks s aborted = Unit {0}
Shrinks s unfinished = ⊥

pass_loop-Shrinks : (fuel : ℕ) (s : Text) → length s ≤ fuel → Shrinks s (pass_loop fuel s)
unfolding pass_loop
pass_loop-Shrinks fuel [] n = (omega arith, λ e. cc)
pass_loop-Shrinks zero (c ∷ cs) n = absurd (omega arith)
pass_loop-Shrinks (suc fuel) (c ∷ cs) n =
    go (decode_round c cs) (decode_round-Takes c cs) (λ t k. pass_loop-Shrinks fuel t k)
  where
    last :
        (again : Bool) (ch : ℕ) (rest : Text) (m : Outcome (Bool × Text))
        → length rest ≤ length cs
        → (again ≡ true → length rest < length cs)
        → Shrinks rest m
        → Shrinks (c ∷ cs) (m >>= λ (more, text). done (again || more, ch ∷ text))
    last true ch rest (done (more, text)) l h (k, g) =
        (omega arith, λ e. (let j = h refl in omega arith))
    last false ch rest (done (more, text)) l h (k, g) =
        (omega arith, λ e. (let j = g e in omega arith))
    last again ch rest aborted l h k = tt
    last again ch rest unfinished l h k = elim k [ ]

    go :
        (m : Outcome (Bool × ℕ × Text))
        → Takes cs m
        → ((t : Text) → length t ≤ fuel → Shrinks t (pass_loop fuel t))
        → Shrinks (c ∷ cs) (
            m >>= λ (again, ch, rest).
            pass_loop fuel rest >>= λ (more, text). done (again || more, ch ∷ text))
    go (done (again, ch, rest)) (l, h) k =
        last again ch rest (pass_loop fuel rest) l h (k rest (omega arith))
    go aborted h k = tt
    go unfinished h k = elim h [ ]

multiple_loop-ne-unfinished :
    (fuel : ℕ) (s : Text) → length s < fuel → multiple_loop fuel s ≢ unfinished
unfolding multiple_loop decode_pass
multiple_loop-ne-unfinished zero s n = absurd (omega arith)
multiple_loop-ne-unfinished (suc fuel) s n =
    go (pass_loop (length s) s) (pass_loop-Shrinks (length s) s (omega arith))
      (λ t k. multiple_loop-ne-unfinished fuel t k)
  where
    go :
        (m : Outcome (Bool × Text))
        → Shrinks s m
        → ((t : Text) → length t < fuel → multiple_loop fuel t ≢ unfinished)
        → (m >>= λ (again, text). elim again [ true ↦ multiple_loop fuel text | false ↦ done text ])
          ≢ unfinished
    go (done (true, text)) (l, h) k = k text (let j = h refl in omega arith)
    go (done (false, text)) (l, h) k = λ e. cc
    go aborted h k = λ e. cc
    go unfinished h k = elim h [ ]

-- MultipleDecode ends on every text, however often it is encoded.
pub multiple_decode-ne-unfinished : (s : Text) → multiple_decode s ≢ unfinished
unfolding multiple_decode
multiple_decode-ne-unfinished s = multiple_loop-ne-unfinished (suc (length s)) s (omega arith)

pass_loop_aborts :
    (s : Text) (fuel : ℕ)
    → All (λ c. (c == b'%') ≡ false) s
    → length (s ++ (b'%' ∷ [])) ≤ fuel
    → pass_loop fuel (s ++ (b'%' ∷ [])) ≡ aborted
unfolding pass_loop decode_round escape
pass_loop_aborts [] zero h n = absurd (omega arith)
pass_loop_aborts [] (suc fuel) h n = refl
pass_loop_aborts (c ∷ cs) zero h n = absurd (omega arith)
pass_loop_aborts (c ∷ cs) (suc fuel) (h, hs) n =
    rw (h, pass_loop_aborts cs fuel hs (omega arith)) refl

pub multiple_decode-cases :
    (s : Text) → ((t : Text) × (multiple_decode s ≡ done t)) ⊎ (multiple_decode s ≡ aborted)
multiple_decode-cases s = go (multiple_decode s) (multiple_decode-ne-unfinished s)
  where
    go : (m : Outcome Text) → m ≢ unfinished → ((t : Text) × (m ≡ done t)) ⊎ (m ≡ aborted)
    go (done t) h = inl (t, refl)
    go aborted h = inr refl
    go unfinished h = absurd (h refl)

-- A text whose only `%` is its last character is read past its end.
pub multiple_decode_aborts :
    (s : Text) → All (λ c. (c == b'%') ≡ false) s → multiple_decode (s ++ (b'%' ∷ [])) ≡ aborted
unfolding multiple_decode multiple_loop decode_pass
multiple_decode_aborts s h =
    rw (pass_loop_aborts s (length (s ++ (b'%' ∷ []))) h (omega arith)) refl
