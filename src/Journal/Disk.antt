-- ===== src/Journal/Disk.antt =====
-- The write loop of the journal's file (`appendJournalRecord` of src/runtime/journal.ts).
use agent_orchestration_star.Base.{
  ltb, nat_beq, if◌then◌else◌, nat_eq, string_eq, option_eq, Bool-cases, length, drop, length-drop,
  ℕ, zero, suc, ◌≤◌, ◌<◌, ◌≡◌, refl, sym, ap, ◌∙◌, inl, inr, Bool, true, false, not, ◌||◌, Option,
  none, some, List, [], ◌∷◌, ◌++◌, append-nil, append_assoc, arith,
}

-- What a call of `file.write` does: it says how many bytes it wrote, or throws.
pub data WriteOutcome : Type 0 where
  wrote : ℕ → WriteOutcome
  throws : WriteOutcome

-- What the file system does at each write of an append, and whether the sync behind them throws.
pub record Disk : Type 0 where
  pub write : ℕ → WriteOutcome
  pub sync_throws : Bool

abbrev pub take {ℓ} : {A : Type ℓ} → ℕ → List A → List A
take zero xs = []
take (suc n) [] = []
take (suc n) (x ∷ xs) = x ∷ take n xs

-- What is in the file in the end, and whether the append came to its end.
pub record Written : Type 0 where
  pub file : List ℕ
  pub complete : Bool

-- `count <= 0 || count > remaining`.
abbrev pub is_no_progress : ℕ → ℕ → Bool
is_no_progress count remaining = nat_beq count 0 || ltb remaining count

-- A round of the loop: it stops with what is written, or goes on with the bytes that remain.
pub data Round : Type 0 where
  stop : Written → Round
  go_on : List ℕ → List ℕ → Round

unfoldable pub write_round : WriteOutcome → List ℕ → List ℕ → Round
write_round throws file bytes = stop (record { file = file; complete = false })
write_round (wrote count) file bytes =
    if is_no_progress count (length bytes)
    then stop (record { file = file ++ take count bytes; complete = false })
    else go_on (file ++ take count bytes) (drop count bytes)

-- What the loop does after a round, given how it goes on.
abbrev pub after_round : (List ℕ → List ℕ → Option Written) → Round → Option Written
after_round next (stop written) = some written
after_round next (go_on grown rest) = next grown rest

-- One round after another until nothing remains; `none` is a loop that has not ended.
unfoldable pub write_loop : ℕ → Disk → ℕ → List ℕ → List ℕ → Option Written
unfolding write_round
write_loop fuel disk call file [] = some (record { file = file; complete = not disk.sync_throws })
write_loop zero disk call file (b ∷ bytes) = none
write_loop (suc fuel) disk call file (b ∷ bytes) =
    after_round (write_loop fuel disk (suc call)) (write_round (disk.write call) file (b ∷ bytes))

-- Each round writes at least a byte, so the number of bytes is fuel enough.
unfoldable pub append_bytes : Disk → List ℕ → List ℕ → Option Written
unfolding write_loop
append_bytes disk file bytes = write_loop (length bytes) disk 0 file bytes

take-drop : {A : Type 0} (n : ℕ) (xs : List A) → take n xs ++ drop n xs ≡ xs
take-drop zero xs = refl
take-drop (suc n) [] = refl
take-drop (suc n) (x ∷ xs) = ap (λ l. x ∷ l) (take-drop n xs)

-- The file that an append leaves: the old one with a beginning of the bytes, all of them when the
-- append is complete.
pub record Extends (file bytes : List ℕ) (written : Written) : Type 0 where
  pub beginning : List ℕ
  pub missing : List ℕ
  pub parts : beginning ++ missing ≡ bytes
  pub grows : written.file ≡ file ++ beginning
  pub whole : written.complete ≡ true → missing ≡ []

Extends-rest :
    (count : ℕ) (file bytes : List ℕ) (written : Written)
    → Extends (file ++ take count bytes) (drop count bytes) written
    → Extends file bytes written
Extends-rest count file bytes written e = record {
  beginning = take count bytes ++ e.beginning;
  missing = e.missing;
  parts =
      append_assoc (take count bytes) e.beginning e.missing
      ∙ ap (λ l. take count bytes ++ l) e.parts
      ∙ take-drop count bytes;
  grows = e.grows ∙ append_assoc file (take count bytes) e.beginning;
  whole = e.whole;
}

-- A round that goes on has written at least a byte.
abbrev RoundFits : List ℕ → List ℕ → Round → Type 0
RoundFits file bytes (stop written) = Extends file bytes written × (written.complete ≡ false)
RoundFits file bytes (go_on grown rest) =
    (count : ℕ) × (grown ≡ file ++ take count bytes)
    × (rest ≡ drop count bytes)
    × (length rest < length bytes)

write_round-fits :
    (outcome : WriteOutcome) (file bytes : List ℕ)
    → RoundFits file bytes (write_round outcome file bytes)
unfolding write_round
write_round-fits throws file bytes = (
  record {
    beginning = [];
    missing = bytes;
    parts = refl;
    grows = sym (append-nil file);
    whole = λ h. absurd (cc);
  },
  refl,
)
write_round-fits (wrote count) file bytes =
    elim (Bool-cases (is_no_progress count (length bytes))) [
      | inl none_made ↦ rw none_made (
        record {
          beginning = take count bytes;
          missing = drop count bytes;
          parts = take-drop count bytes;
          grows = refl;
          whole = λ h. absurd (cc);
        },
        refl,
      )
      | inr made ↦ rw made (count, refl, refl, ground (arith, length-drop count bytes))
    ]

write_loop-Extends :
    (fuel : ℕ) (disk : Disk) (call : ℕ) (file bytes : List ℕ)
    → length bytes ≤ fuel
    → (written : Written) × (write_loop fuel disk call file bytes ≡ some written)
      × Extends file bytes written
unfolding write_loop
write_loop-Extends fuel disk call file [] enough = (
  record { file = file; complete = not disk.sync_throws },
  refl,
  record {
    beginning = [];
    missing = [];
    parts = refl;
    grows = sym (append-nil file);
    whole = λ _. refl;
  },
)
write_loop-Extends zero disk call file (b ∷ bytes) enough = absurd (omega arith)
write_loop-Extends (suc fuel) disk call file (b ∷ bytes) enough =
    let after = after_round (write_loop fuel disk (suc call)) in
    elim (write_round (disk.write call) file (b ∷ bytes))
        as (λ round.
          RoundFits file (b ∷ bytes) round
          → (written : Written) × (after round ≡ some written) × Extends file (b ∷ bytes) written) [
            | stop written ↦ λ fits. (written, refl, fits.0)
            | go_on grown rest ↦ λ fits.
                let (count, grows, remains, shorter) = fits in
                let (written, ends, e) =
                  write_loop-Extends fuel disk (suc call) grown rest
                    (omega (arith, shorter, enough)) in
                (
                  written,
                  ends,
                  Extends-rest count file (b ∷ bytes) written (rw (sym grows, sym remains) e),
                )
          ]
      (write_round-fits (disk.write call) file (b ∷ bytes))

-- Whatever each write returns or throws, the loop ends; the file then is the old one with a
-- beginning of the bytes behind it, and all of them when the append reports success.
pub append_bytes-ends :
    (disk : Disk) (file bytes : List ℕ)
    → (written : Written) × (append_bytes disk file bytes ≡ some written)
      × Extends file bytes written
unfolding append_bytes
append_bytes-ends disk file bytes =
    write_loop-Extends (length bytes) disk 0 file bytes (omega arith)
