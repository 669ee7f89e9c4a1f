-- ===== src/Analyzer/Nas/Decoded.antt =====
-- A NAS message is decoded or refused, never half of each (5gcap/fivegcap/nas.py, `decode`).
use g_pcap.Prelude.{
  ℕ, ◌%◌, String, Bool, true, false, ◌≡◌, ◌≢◌, refl, ◌∙◌, Option, none, some, List, ◌∷◌, arith,
  get_elem?, if◌then◌else◌, ◌==◌, ◌||◌,
}
use g_pcap.Analyzer.Nas.{
  NasMsg, NasTree, NasLibrary, raised, refused, parsed, unread, read, parse_inner, refuse, commit,
  commit_inner, InnerResult, use_inner, take_inner, ParseResult, decode_parsed, open_protected,
  decode_protected, decode, name_of, is_protected, blank,
}
use g_pcap.Analyzer.Nas.Fate.{fill_from-SameFate}

-- A message with a name and no note of a refusal, or one with nothing but the note.
pub data IsDecodedXorRefused (m : NasMsg) : Type 0 where
  decoded : (name : String) → m.name ≡ some name → m.unparsed ≡ none → IsDecodedXorRefused m
  refused_only : (p : Bool) (note : String) → m ≡ refuse p note → IsDecodedXorRefused m

module _ (py : NasLibrary) where
  commit-decoded : (p : Bool) (t : NasTree) → IsDecodedXorRefused (commit py p t)
  unfolding commit
  commit-decoded p t =
      let h = fill_from-SameFate py t (record blank { protected = p; name = some (name_of t) }) in
      decoded (name_of t) h.name h.unparsed

  commit_inner-decoded : (t u : NasTree) → IsDecodedXorRefused (commit_inner py t u)
  unfolding commit_inner commit
  commit_inner-decoded t u =
      let h =
        fill_from-SameFate py t (record blank { protected = true; name = some (name_of t) }) in
      let g = fill_from-SameFate py u (record (commit py true t) { inner = some (name_of u) }) in
      decoded (name_of t) (g.name ∙ h.name) (g.unparsed ∙ h.unparsed)

  use_inner-decoded : (t : NasTree) (r : InnerResult) → IsDecodedXorRefused (use_inner py t r)
  unfolding use_inner
  use_inner-decoded t (unread note) = refused_only true note refl
  use_inner-decoded t (read u) = commit_inner-decoded t u

  take_inner-decoded : (t : NasTree) (rest : List ℕ) → IsDecodedXorRefused (take_inner py t rest)
  unfolding take_inner
  take_inner-decoded t rest = use_inner-decoded t (parse_inner py rest)

  choose :
      (b : Bool) {x y : NasMsg}
      → IsDecodedXorRefused x
      → IsDecodedXorRefused y
      → IsDecodedXorRefused (if b then x else y)
  choose true h g = h
  choose false h g = g

  open_protected-decoded :
      (t : NasTree) (algo : Option ℕ) (shdr : ℕ) (rest : List ℕ)
      → IsDecodedXorRefused (open_protected py t algo shdr rest)
  unfolding open_protected
  open_protected-decoded t none shdr rest =
      choose (shdr == 1 || shdr == 3) (take_inner-decoded t rest) (refused_only true _ refl)
  open_protected-decoded t (some a) shdr rest =
      choose (shdr == 1 || shdr == 3) (take_inner-decoded t rest)
        (choose (a == 0) (take_inner-decoded t rest) (refused_only true _ refl))

  decode_protected-decoded :
      (t : NasTree) (algo : Option ℕ) (payload : List ℕ)
      → IsDecodedXorRefused (decode_protected py t algo payload)
  unfolding decode_protected
  decode_protected-decoded t algo (epd ∷ shdr ∷ m0 ∷ m1 ∷ m2 ∷ m3 ∷ sq ∷ b ∷ rest) =
      choose (epd == 0x7e) (open_protected-decoded t algo (shdr % 16) (b ∷ rest))
        (refused_only true _ refl)
  decode_protected-decoded t algo _ = refused_only true _ refl

  decode_parsed-decoded :
      (payload : List ℕ) (algo : Option ℕ) (r : ParseResult)
      → IsDecodedXorRefused (decode_parsed py payload algo r)
  unfolding decode_parsed
  decode_parsed-decoded payload algo (raised e) = refused_only false _ refl
  decode_parsed-decoded payload algo (refused err) = refused_only false _ refl
  decode_parsed-decoded payload algo (parsed t) =
      choose (is_protected (name_of t)) (decode_protected-decoded t algo payload)
        (commit-decoded false t)

  -- For every payload and every answer of the parser, the message that `decode` returns either
  -- has a name and no note, or is a refusal: a note and the protected flag, and no other field.
  pub decode-IsDecodedXorRefused :
      (payload : List ℕ) (algo : Option ℕ) → IsDecodedXorRefused (decode py payload algo)
  unfolding decode
  decode-IsDecodedXorRefused payload algo = decode_parsed-decoded payload algo (py.parse payload)

  abbrev IsRefused : NasMsg → Type 0
  IsRefused m = (note : String) × (m ≡ refuse true note)

  IsRefused-if :
      (b : Bool) {x y : NasMsg} → IsRefused x → IsRefused y → IsRefused (if b then x else y)
  IsRefused-if true h g = h
  IsRefused-if false h g = g

  open_protected-IsRefused :
      (t : NasTree) (algo : Option ℕ) (shdr : ℕ) (rest : List ℕ)
      → algo ≢ some 0
      → shdr ≢ 1
      → shdr ≢ 3
      → IsRefused (open_protected py t algo shdr rest)
  unfolding open_protected
  open_protected-IsRefused t none shdr rest ne n1 n3 =
      let e : (shdr == 1 || shdr == 3) ≡ false = ground arith in rw e (_, refl)
  open_protected-IsRefused t (some a) shdr rest ne n1 n3 =
      let e : (shdr == 1 || shdr == 3) ≡ false = ground arith in
      let z : (a == 0) ≡ false = ground arith in rw (e, z) (_, refl)

  decode_protected-IsRefused :
      (t : NasTree) (algo : Option ℕ) (payload : List ℕ) (shdr : ℕ)
      → algo ≢ some 0
      → get_elem? payload 1 ≡ some shdr
      → shdr % 16 ≢ 1
      → shdr % 16 ≢ 3
      → IsRefused (decode_protected py t algo payload)
  unfolding decode_protected
  decode_protected-IsRefused t algo (epd ∷ x ∷ m0 ∷ m1 ∷ m2 ∷ m3 ∷ sq ∷ b ∷ rest) shdr ne at n1 n3 =
      let same : x ≡ shdr = cc in
      IsRefused-if (epd == 0x7e)
        (open_protected-IsRefused t algo (x % 16) (b ∷ rest) ne (rw same n1) (rw same n3)) (_, refl)
  decode_protected-IsRefused t algo _ shdr ne at n1 n3 = (_, refl)

  -- A message whose outer name marks it as security-protected, and whose security header is
  -- neither of the integrity-only ones (1 and 3), is refused unless the flow's ciphering
  -- algorithm is known to be the null cipher: no field of its payload is filled.
  pub decode_opaque :
      (payload : List ℕ) (algo : Option ℕ) (t : NasTree) (shdr : ℕ)
      → py.parse payload ≡ parsed t
      → is_protected (name_of t) ≡ true
      → algo ≢ some 0
      → get_elem? payload 1 ≡ some shdr
      → shdr % 16 ≢ 1
      → shdr % 16 ≢ 3
      → (note : String) × (decode py payload algo ≡ refuse true note)
  decode_opaque payload algo t shdr e p ne at n1 n3 =
      let (note, h) = decode_protected-IsRefused t algo payload shdr ne at n1 n3 in
      (note, unfold decode decode_parsed in rw (e, decode_parsed, p) h)
