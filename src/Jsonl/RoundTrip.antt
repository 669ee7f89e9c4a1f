-- ===== src/Jsonl/RoundTrip.antt =====
-- What was added to a store is read back (dispatch/dispatch/memory.py and triage/triage/memory.py,
-- `add` and `load`).
use Prim.Native.String.{◌++◌ as append}
use package.text.Mathlib.TextLemmas.{append_assoc}
use g_pcap.Prelude.{
  String, false, ◌≡◌, refl, sym, ap, ◌∙◌, Option, none, some, List, [], ◌∷◌, ◌++◌, ◌⊎◌, inl, inr,
  Bool-cases,
}
use g_pcap.Prelude.Chars.{is_empty_text}
use g_pcap.Prelude.Lines.{split_lines, IsLine, split_lines-append, split_lines_single}
use g_pcap.Jsonl.{Codec, add_record, cons_some, read_lines, load}

-- Each line of the file is ended.
abbrev pub IsClosed : Option String → Type 0
IsClosed none = Unit
IsClosed (some file) = (file ≡ "") ⊎ ((f : String) × (file ≡ append f "\n"))

-- A printed record is one line that is not empty, and is read back.
pub record IsPrinted {E : Type 0} (cd : Codec E) (e : E) : Type 0 where
  pub line : IsLine (cd.dump e)
  pub nonempty : is_empty_text (cd.dump e) ≡ false
  pub back : cd.parse (cd.dump e) ≡ some e

module _ {E : Type 0} (cd : Codec E) where
  cons_some-append :
      (o : Option E) (xs ys : List E) → cons_some cd o (xs ++ ys) ≡ cons_some cd o xs ++ ys
  cons_some-append none xs ys = refl
  cons_some-append (some e) xs ys = refl

  read_lines-append :
      (ls ms : List String) → read_lines cd (ls ++ ms) ≡ read_lines cd ls ++ read_lines cd ms
  unfolding read_lines
  read_lines-append [] ms = refl
  read_lines-append (l ∷ ls) ms =
      let rest = read_lines-append ls ms in
      elim (Bool-cases (is_empty_text l)) [
        | inl e ↦ rw (e, rest) refl
        | inr e ↦ rw (e, rest) (cons_some-append (cd.parse l) (read_lines cd ls) (read_lines cd ms))
      ]

  -- The lines of one more record.
  read-dump :
      (e : E) → IsPrinted cd e → read_lines cd (split_lines (append (cd.dump e) "\n")) ≡ e ∷ []
  unfolding read_lines split_lines
  read-dump e h =
      let lines = split_lines-append (cd.dump e) "" in
      let only = split_lines_single (cd.dump e) (h.line) in
      ap (read_lines cd) (lines ∙ ap (λ xs. xs ++ split_lines "") only)
      ∙ rw (h.nonempty, h.back) refl

  append_empty : (xs : List E) → xs ++ [] ≡ xs
  append_empty [] = refl
  append_empty (x ∷ xs) = ap (λ ys. x ∷ ys) (append_empty xs)

  -- What follows an ended line is read after it.
  read_ended :
      (f t : String)
      → read_lines cd (split_lines (append (append f "\n") t))
        ≡ read_lines cd (split_lines f) ++ read_lines cd (split_lines t)
  read_ended f t =
      ap (λ x. read_lines cd (split_lines x)) (append_assoc f "\n" t)
      ∙ ap (read_lines cd) (split_lines-append f t)
      ∙ read_lines-append (split_lines f) (split_lines t)

  read_last :
      (f : String)
      → read_lines cd (split_lines (append f "\n")) ≡ read_lines cd (split_lines f) ++ []
  unfolding read_lines split_lines
  read_last f =
      ap (read_lines cd) (split_lines-append f "")
      ∙ read_lines-append (split_lines f) (split_lines "")

  load_ended :
      (e : E) (f : String)
      → IsPrinted cd e
      → read_lines cd (split_lines (append (append f "\n") (append (cd.dump e) "\n")))
        ≡ read_lines cd (split_lines (append f "\n")) ++ e ∷ []
  load_ended e f h =
      read_ended f (append (cd.dump e) "\n")
      ∙ ap (λ ys. read_lines cd (split_lines f) ++ ys) (read-dump e h)
      ∙ ap (λ xs. xs ++ e ∷ []) (sym (read_last f ∙ append_empty (read_lines cd (split_lines f))))

  load_first :
      (e : E)
      → IsPrinted cd e
      → read_lines cd (split_lines (append "" (append (cd.dump e) "\n")))
        ≡ read_lines cd (split_lines "") ++ e ∷ []
  unfolding read_lines split_lines
  load_first e h =
      ap (λ x. read_lines cd (split_lines x))
        (Prim.Native.String.append.nil (append (cd.dump e) "\n"))
      ∙ read-dump e h

  added-IsClosed : (e : E) (file : String) → IsClosed (some (append file (append (cd.dump e) "\n")))
  added-IsClosed e file = inr (append file (cd.dump e), sym (append_assoc file (cd.dump e) "\n"))

  -- A record that is read back from its line, added to a store whose lines are ended, is read after those that were there,
  -- and the lines of the new store are ended.
  pub load-add_record :
      (e : E) (file : Option String)
      → IsPrinted cd e
      → IsClosed file
      → (load cd (add_record cd e file) ≡ load cd file ++ e ∷ []) × IsClosed (add_record cd e file)
  unfolding load add_record
  load-add_record e none h c = (read-dump e h, inr (cd.dump e, refl))
  load-add_record e (some file) h (inl c) = (rw c (load_first e h), added-IsClosed e file)
  load-add_record e (some file) h (inr (f, c)) = (rw c (load_ended e f h), added-IsClosed e file)
