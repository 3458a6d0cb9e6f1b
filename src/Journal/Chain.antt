-- ===== src/Journal/Chain.antt =====
-- The chain of the journal's records, and that reading a file of chained records gives them back
-- (src/runtime/journal.ts).
use agent_orchestration_star.Base.{
  nat_beq, nat_eq, string_eq, option_eq, length, drop, eq_nil_of_length, all, length-append, All,
  ok, ◌>>=◌, Result-cases, split_on, split_on-joined, split_on_whole, equal_codes, ends_with, ℕ,
  suc, ◌+◌, ◌-◌, String, ◌≡◌, refl, sym, ap, ◌∙◌, ◌≢◌, inl, inr, true, false, not, Option, none,
  some, List, [], ◌∷◌, ◌++◌, map, append-nil, append_assoc, arith,
}
use agent_orchestration_star.Journal.Records.{
  a_record, JournalRecord, Codec, CommandBytes, without_last, newline, is_record, read_line,
  admit_record, parse_lines, parse_records, line_of, print_records,
}
use agent_orchestration_star.Journal.Append.{previous_hash_of, next_seen, index_from}

-- What the journal relies on for a record: its canonical text is one line, and reads as the record.
pub record Encodes (codec : Codec) (r : JournalRecord) : Type 0 where
  pub reads : codec.decode (codec.encode r) ≡ a_record r
  pub one_line : all (λ c. not (nat_beq c newline)) (codec.encode r) ≡ true
  pub some_text : codec.encode r ≢ []

-- A record with the checks that it passes behind `index` records.
pub record Follows (codec : Codec) (index : ℕ) (expected : Option String) (seen : CommandBytes)
    (r : JournalRecord) : Type 0 where
  pub encodes : Encodes codec r
  pub readable : is_record codec r ≡ true
  pub admitted : admit_record codec index expected seen r ≡ ok (next_seen codec seen r)

equal_codes_refl : (cs : List ℕ) → equal_codes cs cs ≡ true
equal_codes_refl [] = refl
equal_codes_refl (c ∷ cs) = ground (arith, equal_codes_refl cs)

without_last-append : (cs : List ℕ) (c : ℕ) → without_last (cs ++ c ∷ []) ≡ cs
without_last-append [] c = refl
without_last-append (a ∷ []) c = refl
without_last-append (a ∷ b ∷ cs) c = ap (λ l. a ∷ l) (without_last-append (b ∷ cs) c)

drop-append : {A : Type 0} (xs ys : List A) → drop (length xs) (xs ++ ys) ≡ ys
drop-append [] ys = refl
drop-append (x ∷ xs) ys = drop-append xs ys

ends_with_last : (cs : List ℕ) (c : ℕ) → ends_with (c ∷ []) (cs ++ c ∷ []) ≡ true
unfolding ends_with
ends_with_last cs c =
    let e : length (cs ++ c ∷ []) - 1 ≡ length cs = omega (arith, length-append {0} cs (c ∷ [])) in
    rw (e, drop-append cs (c ∷ [])) (ground (arith, length-append cs (c ∷ [])))

module _ (codec : Codec) where
  abbrev pub Chained : ℕ → Option String → CommandBytes → List JournalRecord → Type 0
  Chained index expected seen [] = Unit
  Chained index expected seen (r ∷ rs) =
      Follows codec index expected seen r
      × Chained (suc index) (some r.record_hash) (next_seen codec seen r) rs

  unfoldable pub last_hash : Option String → List JournalRecord → Option String
  last_hash expected [] = expected
  last_hash expected (r ∷ rs) = last_hash (some r.record_hash) rs

  -- One more record behind a chain.
  pub Chained-append :
      (index : ℕ) (expected : Option String) (seen : CommandBytes) (rs : List JournalRecord)
      (r : JournalRecord)
      → Chained index expected seen rs
      → Follows codec (index + length rs) (last_hash expected rs) (index_from codec seen rs) r
      → Chained index expected seen (rs ++ r ∷ [])
  unfolding last_hash index_from
  Chained-append index expected seen [] r c f =
      let e : index + 0 ≡ index = omega arith in (rw e at f, tt)
  Chained-append index expected seen (q ∷ rs) r (first, c) f =
      let e : index + suc (length rs) ≡ suc index + length rs = omega arith in
      (
        first,
        Chained-append (suc index) (some q.record_hash) (next_seen codec seen q) rs r c (rw e at f),
      )

  pub previous_hash_of-last_hash :
      (rs : List JournalRecord) → previous_hash_of rs ≡ last_hash none rs
  unfolding last_hash
  previous_hash_of-last_hash [] = refl
  previous_hash_of-last_hash (r ∷ []) = refl
  previous_hash_of-last_hash (r ∷ q ∷ rs) = previous_hash_of-last_hash (q ∷ rs)

  pub print_records-append :
      (rs : List JournalRecord) (r : JournalRecord)
      → print_records codec (rs ++ r ∷ []) ≡ print_records codec rs ++ line_of codec r
  unfolding print_records
  print_records-append [] r = append-nil (line_of codec r)
  print_records-append (q ∷ rs) r =
      ap (λ l. line_of codec q ++ l) (print_records-append rs r)
      ∙ sym (append_assoc (line_of codec q) (print_records codec rs) (line_of codec r))

  -- The lines of a file of records, with a newline between them.
  body : JournalRecord → List JournalRecord → List ℕ
  body r [] = codec.encode r
  body r (q ∷ rs) = codec.encode r ++ newline ∷ body q rs

  print_records-body :
      (r : JournalRecord) (rs : List JournalRecord)
      → print_records codec (r ∷ rs) ≡ body r rs ++ newline ∷ []
  unfolding print_records body
  print_records-body r [] = append-nil (line_of codec r)
  print_records-body r (q ∷ rs) =
      ap (λ l. line_of codec r ++ l) (print_records-body q rs)
      ∙ append_assoc (codec.encode r) (newline ∷ []) (body q rs ++ newline ∷ [])
      ∙ sym (append_assoc (codec.encode r) (newline ∷ body q rs) (newline ∷ []))

  split-body :
      (r : JournalRecord) (rs : List JournalRecord)
      → Encodes codec r
      → All (Encodes codec) rs
      → split_on newline (body r rs) ≡ map codec.encode (r ∷ rs)
  unfolding body
  split-body r [] e es = split_on_whole newline (codec.encode r) e.one_line
  split-body r (q ∷ rs) e (e', es) =
      split_on-joined newline (codec.encode r) (body q rs)
      ∙ rw (split_on_whole newline (codec.encode r) e.one_line, split-body q rs e' es) refl

  pub read_line-encode :
      (r : JournalRecord)
      → Encodes codec r
      → is_record codec r ≡ true
      → read_line codec (codec.encode r) ≡ ok r
  unfolding read_line
  read_line-encode r encodes h =
      let e : nat_beq (length (codec.encode r)) 0 ≡ false =
        ground (arith, eq_nil_of_length (codec.encode r), encodes.some_text) in
      rw (e, encodes.reads, h, equal_codes_refl (codec.encode r)) refl

  pub Chained-Encodes :
      (index : ℕ) (expected : Option String) (seen : CommandBytes) (rs : List JournalRecord)
      → Chained index expected seen rs
      → All (Encodes codec) rs
  Chained-Encodes index expected seen [] c = tt
  Chained-Encodes index expected seen (r ∷ rs) (first, c) = (
    first.encodes,
    Chained-Encodes (suc index) (some r.record_hash) (next_seen codec seen r) rs c,
  )

  -- Behind the lines of chained records, reading goes on from the end of the chain.
  pub parse_lines-append :
      (index : ℕ) (expected : Option String) (seen : CommandBytes) (rs : List JournalRecord)
      (lines : List (List ℕ))
      → Chained index expected seen rs
      → parse_lines codec index expected seen (map codec.encode rs ++ lines) ≡ (
          parse_lines codec
            (index + length rs)
            (last_hash expected rs)
            (index_from codec seen rs)
            lines
          >>= λ rest. ok (rs ++ rest))
  unfolding parse_lines last_hash index_from
  parse_lines-append index expected seen [] lines c =
      let e : index + 0 ≡ index = omega arith in
      rw e (elim (Result-cases (parse_lines codec index expected seen lines)) [
        | inl (a, r) ↦ rw r refl
        | inr (x, r) ↦ rw r refl
      ])
  parse_lines-append index expected seen (r ∷ rs) lines (first, c) =
      let e : index + suc (length rs) ≡ suc index + length rs = omega arith in
      let later =
        parse_lines-append (suc index) (some r.record_hash) (next_seen codec seen r) rs lines c in
      rw (read_line-encode r first.encodes first.readable, first.admitted, later, e)
        (elim (Result-cases (
          parse_lines codec (suc index + length rs) (last_hash (some r.record_hash) rs)
            (index_from codec (next_seen codec seen r) rs) lines)) [
              | inl (a, r) ↦ rw r refl
              | inr (x, r) ↦ rw r refl
            ])

  -- Reading a file of records is reading their lines.
  pub parse_records-lines :
      (rs : List JournalRecord)
      → All (Encodes codec) rs
      → parse_records codec (print_records codec rs)
        ≡ parse_lines codec 0 none [] (map codec.encode rs)
  unfolding parse_records parse_lines
  parse_records-lines [] es = unfold print_records in refl
  parse_records-lines (r ∷ rs) (e, es) =
      let positive : nat_beq (length (body r rs ++ newline ∷ [])) 0 ≡ false =
        ground (arith, length-append (body r rs) (newline ∷ [])) in
      rw
        (
          print_records-body r rs,
          positive,
          ends_with_last (body r rs) newline,
          without_last-append (body r rs) newline,
          split-body r rs e es,
        )
        refl

  -- The file of a chain of records, each with the checks that it passes behind the others, is
  -- read as exactly those records.
  pub parse_records-print_records :
      (rs : List JournalRecord)
      → Chained 0 none [] rs
      → parse_records codec (print_records codec rs) ≡ ok rs
  parse_records-print_records rs c =
      let no_more = parse_lines-append 0 none [] rs [] c in
      parse_records-lines rs (Chained-Encodes 0 none [] rs c)
      ∙ ap (λ l. parse_lines codec 0 none [] l) (sym (append-nil (map codec.encode rs)))
      ∙ no_more
      ∙ unfold parse_lines in ap ok (append-nil rs)
