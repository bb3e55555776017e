-- ===== src/Store/Rows.antt =====
-- The rows that appending leaves, and what is read of them: crates/kboard-store/src/lib.rs.
use mathlib.Core.List.{append_assoc, append-nil}
use k_board.Common.{
  ℕ, suc, ◌+◌, ◌≤◌, List, [], ◌∷◌, ◌++◌, none, some, length, ◌≡◌, refl, ap, ap₂, sym, ◌∙◌, arith,
  All, max, map, Option-cases, inl, inr,
}
use k_board.Common.Order.{nat_ord}
use k_board.Common.Map
use k_board.Op.{StampedOp}
use k_board.Ports.{ok}
use k_board.Store.{Rows, Json, max_seq, insert_rows, decode_rows, rows_since}

-- Operations that are encoded, and what they are encoded as decoded to them again.
abbrev pub Encodes : {P Q : Type 0} → Json P Q → List StampedOp → List P → Type 0
Encodes json ops texts = map json.encode ops ≡ map some texts

abbrev pub Decodes : {P Q : Type 0} → Json P Q → List P → List StampedOp → Type 0
Decodes json texts ops = map json.decode texts ≡ map some ops

abbrev pub RoundTrips : {P Q : Type 0} → Json P Q → List StampedOp → Type 0
RoundTrips {P} json ops = (texts : List P) × Encodes json ops texts × Decodes json texts ops

module _ {P : Type 0} where
  -- The rows of payloads, numbered from one more than a number.
  unfoldable pub numbered : ℕ → List P → Rows P
  numbered n [] = []
  numbered n (text ∷ texts) = (suc n, text) ∷ numbered (suc n) texts

  abbrev pub AtMost : ℕ → Rows P → Type 0
  AtMost n table = All (λ row. row.0 ≤ n) table

  insert-last :
      (n : ℕ) (text : P) (table : Rows P)
      → AtMost n table
      → Map.insert (suc n) text table ≡ table ++ (suc n, text) ∷ []
  unfolding Map.insert nat_ord
  insert-last n text [] h = refl
  insert-last n text ((m, s) ∷ table) h = ground (arith, insert-last n text table h.1)

  AtMost-last :
      (n : ℕ) (text : P) (table : Rows P)
      → AtMost n table
      → AtMost (suc n) (table ++ (suc n, text) ∷ [])
  AtMost-last n text [] h = (omega arith, tt)
  AtMost-last n text ((m, s) ∷ table) h = (omega (arith, h.0), AtMost-last n text table h.1)

  pub max_seq-numbered :
      (n : ℕ) (texts : List P) → max n (max_seq (numbered n texts)) ≡ n + length texts
  unfolding max_seq numbered
  max_seq-numbered n [] = omega arith
  max_seq-numbered n (text ∷ texts) = omega (arith, max_seq-numbered (suc n) texts)

  -- The rows after a number at or above theirs, and after one below theirs.
  pub since-old :
      (after n : ℕ) (texts : List P) (later : Rows P)
      → n + length texts ≤ after
      → rows_since (numbered n texts ++ later) after ≡ rows_since later after
  unfolding rows_since numbered
  since-old after n [] later h = refl
  since-old after n (text ∷ texts) later h =
      ground (arith, since-old after (suc n) texts later (omega arith))

  pub since-new :
      (after n : ℕ) (texts : List P)
      → after ≤ n
      → rows_since (numbered n texts) after ≡ numbered n texts
  unfolding rows_since numbered
  since-new after n [] h = refl
  since-new after n (text ∷ texts) h = ground (arith, since-new after (suc n) texts (omega arith))

  pub numbered-AtMost :
      (k n : ℕ) (texts : List P) → n + length texts ≤ k → AtMost k (numbered n texts)
  unfolding numbered
  numbered-AtMost k n [] h = tt
  numbered-AtMost k n (text ∷ texts) h =
      (omega (arith, h), numbered-AtMost k (suc n) texts (omega (arith, h)))

module _ {P Q : Type 0} (json : Json P Q) where
  pub length-texts :
      (ops : List StampedOp) (texts : List P) → Encodes json ops texts → length texts ≡ length ops
  length-texts [] [] e = refl
  length-texts [] (text ∷ texts) e = absurd (cc e)
  length-texts (op ∷ ops) [] e = absurd (cc e)
  length-texts (op ∷ ops) (text ∷ texts) e = ap suc (length-texts ops texts (cc e))

  first_row :
      (n : ℕ) (table : Rows P) (op : StampedOp) (ops : List StampedOp) (text : P)
      → json.encode op ≡ some text
      → insert_rows json table n (op ∷ ops)
        ≡ insert_rows json (Map.insert (suc n) text table) (suc n) ops
  unfolding insert_rows
  first_row n table op ops text e =
      ap
        (λ o. elim o [
          | none ↦ none
          | some payload ↦ insert_rows json (Map.insert (suc n) payload table) (suc n) ops
        ])
        e

  pub insert_rows_lem :
      (n : ℕ) (table : Rows P) (ops : List StampedOp) (texts : List P)
      → Encodes json ops texts
      → AtMost n table
      → insert_rows json table n ops ≡ some (table ++ numbered n texts, n + length texts)
  unfolding insert_rows numbered
  insert_rows_lem n table [] [] e h =
      let sum : n ≡ n + 0 = omega arith in ap₂ (λ t k. some (t, k)) (sym (append-nil table)) sum
  insert_rows_lem n table [] (text ∷ texts) e h = absurd (cc e)
  insert_rows_lem n table (op ∷ ops) [] e h = absurd (cc e)
  insert_rows_lem n table (op ∷ ops) (text ∷ texts) e h =
      let first : json.encode op ≡ some text = cc e in
      let ih =
        insert_rows_lem (suc n) (table ++ (suc n, text) ∷ []) ops texts (cc e)
          (AtMost-last n text table h) in
      let sum : suc n + length texts ≡ n + suc (length texts) = omega arith in
      first_row n table op ops text first
      ∙ ap (λ t. insert_rows json t (suc n) ops) (insert-last n text table h)
      ∙ ih
      ∙ ap₂ (λ t k. some (t, k)) (append_assoc table ((suc n, text) ∷ []) (numbered (suc n) texts))
          sum

  -- Where the rows of operations are inserted, each of them was encoded.
  pub insert_rows_inv :
      (n : ℕ) (table : Rows P) (ops : List StampedOp) (after : Rows P × ℕ)
      → insert_rows json table n ops ≡ some after
      → (texts : List P) × Encodes json ops texts
  unfolding insert_rows
  insert_rows_inv n table [] after e = ([], refl)
  insert_rows_inv n table (op ∷ ops) after e = elim (Option-cases (json.encode op)) [
    | inl broken ↦ absurd (cc (rw (broken, insert_rows) at e))
    | inr (text, good) ↦
        let (texts, more) =
          insert_rows_inv (suc n) (Map.insert (suc n) text table) ops after
            (sym (first_row n table op ops text good) ∙ e) in
        (text ∷ texts, ap₂ (λ x xs. x ∷ xs) good more)
  ]

  pub decode-numbered :
      (n : ℕ) (texts : List P) (ops : List StampedOp)
      → Decodes json texts ops
      → decode_rows json (numbered n texts) ≡ ok ops
  unfolding decode_rows numbered
  decode-numbered n [] [] e = refl
  decode-numbered n [] (op ∷ ops) e = absurd (cc e)
  decode-numbered n (text ∷ texts) [] e = absurd (cc e)
  decode-numbered n (text ∷ texts) (op ∷ ops) e =
      let first : json.decode text ≡ some op = cc e in
      ground (arith, first, decode-numbered (suc n) texts ops (cc e))
