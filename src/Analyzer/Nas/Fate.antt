-- ===== src/Analyzer/Nas/Fate.antt =====
-- Filling the fields of a message does not change whether it is decoded (5gcap/fivegcap/nas.py,
-- `_fill_from`).
use g_pcap.Prelude.{
  ℕ, String, Bool, true, false, ◌≡◌, refl, ◌∙◌, inl, inr, Option, none, some, arith, Bool-cases,
  if◌then◌else◌, ltb,
}
use package.text.Mathlib.Text.{starts_with}
use g_pcap.Analyzer.Value.{Val, Vals, list, nil, cons, size, item}
use g_pcap.Analyzer.Nas.{
  NasMsg, NasTree, Elements, message, opaque, end, plain, holder, NasLibrary, identity, identity_in,
  extract_5gsid, selected, security, cause_of, fill_element, Deferred, finish, defer, label,
  fill_from, fill_elements, is_container,
}

-- The fields that say whether a message is decoded are equal.
pub record SameFate (a b : NasMsg) : Type 0 where
  pub name : a.name ≡ b.name
  pub unparsed : a.unparsed ≡ b.unparsed
  pub protected : a.protected ≡ b.protected

SameFate-refl : (a : NasMsg) → SameFate a a
SameFate-refl a = record { name = refl; unparsed = refl; protected = refl }

SameFate-trans : {a b c : NasMsg} → SameFate a b → SameFate b c → SameFate a c
SameFate-trans h g = record {
  name = h.name ∙ g.name;
  unparsed = h.unparsed ∙ g.unparsed;
  protected = h.protected ∙ g.protected;
}

SameFate-if :
    (b : Bool) (x y m : NasMsg) → SameFate x m → SameFate y m → SameFate (if b then x else y) m
SameFate-if true x y m h g = h
SameFate-if false x y m h g = g

identity-SameFate : (content : Vals) (m : NasMsg) → SameFate (identity content m) m
unfolding identity
identity-SameFate content m = record {
  name = ground arith;
  unparsed = ground arith;
  protected = ground arith;
}

identity_in-SameFate : (v : Val) (m : NasMsg) → SameFate (identity_in v m) m
identity_in-SameFate (list content) m = identity-SameFate content m
identity_in-SameFate _ m = SameFate-refl m

extract_5gsid-SameFate : (v : Val) (m : NasMsg) → SameFate (extract_5gsid v m) m
unfolding extract_5gsid
extract_5gsid-SameFate (list vs) m =
    SameFate-if (ltb 1 (size vs)) (identity_in (item vs 1) m) (identity vs m) m
      (identity_in-SameFate (item vs 1) m) (identity-SameFate vs m)
extract_5gsid-SameFate _ m = SameFate-refl m

selected-SameFate : (v : Val) (m : NasMsg) → SameFate (selected v m) m
selected-SameFate (list (cons c (cons i nil))) m = record {
  name = refl;
  unparsed = refl;
  protected = refl;
}
selected-SameFate _ m = SameFate-refl m

security-SameFate : (v : Val) (m : NasMsg) → SameFate (security v m) m
unfolding security
security-SameFate (list (cons v vs)) m = selected-SameFate v m
security-SameFate _ m = SameFate-refl m

cause_of-SameFate :
    (names : ℕ → Option String) (v : Val) (m : NasMsg) → SameFate (cause_of names v m) m
unfolding cause_of
cause_of-SameFate names v m = record {
  name = ground arith;
  unparsed = ground arith;
  protected = ground arith;
}

fill_element-SameFate :
    (py : NasLibrary) (n : Option String) (v : Val) (m : NasMsg)
    → SameFate (fill_element py n v m) m
unfolding fill_element
fill_element-SameFate py none v m = SameFate-refl m
fill_element-SameFate py (some n) v m =
    let a = security-SameFate v m in
    let b = cause_of-SameFate py.mm_cause v m in
    let c = cause_of-SameFate py.sm_cause v m in
    let d = extract_5gsid-SameFate v m in
    record { name = ground arith; unparsed = ground arith; protected = ground arith }

-- Whatever a deferred container does keeps the fate.
KeepsFate : Deferred → Type 0
KeepsFate none = Unit
KeepsFate (some (n, fill)) = (m : NasMsg) → SameFate (fill m) m

finish-SameFate : (d : Deferred) (m : NasMsg) → KeepsFate d → SameFate (finish d m) m
unfolding KeepsFate
finish-SameFate none m h = SameFate-refl m
finish-SameFate (some (n, fill)) m h =
    SameFate-trans (h (record m { inner = some n }))
      (record { name = refl; unparsed = refl; protected = refl })

defer-KeepsFate :
    (n : Option String) (fill : NasMsg → NasMsg) (d : Deferred)
    → ((m : NasMsg) → SameFate (fill m) m)
    → KeepsFate d
    → KeepsFate (defer n fill d)
unfolding KeepsFate
defer-KeepsFate none fill d h g = g
defer-KeepsFate (some n) fill d h g = elim (Bool-cases (starts_with n "5GSM")) [
  | inl e ↦ rw e h
  | inr e ↦ rw e g
]

held-KeepsFate :
    (b : Bool) (n : Option String) (fill : NasMsg → NasMsg) (d : Deferred)
    → ((m : NasMsg) → SameFate (fill m) m)
    → KeepsFate d
    → KeepsFate (if b then defer n fill d else d)
held-KeepsFate true n fill d h g = defer-KeepsFate n fill d h g
held-KeepsFate false n fill d h g = g

mutual
  unfolding fill_from fill_elements KeepsFate

  pub fill_from-SameFate :
      (py : NasLibrary) (t : NasTree) (m : NasMsg) → SameFate (fill_from py t m) m
  fill_from-SameFate py (message n ty es) m = fill_elements-SameFate py es none m tt
  fill_from-SameFate py (opaque n ty) m = SameFate-refl m

  fill_elements-SameFate :
      (py : NasLibrary) (es : Elements) (d : Deferred) (m : NasMsg)
      → KeepsFate d
      → SameFate (fill_elements py es d m) m
  fill_elements-SameFate py end d m h = finish-SameFate d m h
  fill_elements-SameFate py (plain n v es) d m h =
      SameFate-trans (fill_elements-SameFate py es d (fill_element py n v m) h)
        (fill_element-SameFate py n v m)
  fill_elements-SameFate py (holder n v sub es) d m h =
      SameFate-trans
        (fill_elements-SameFate py es _ (fill_element py n v m) (
          held-KeepsFate (is_container n) (label sub) (fill_from py sub) d
            (fill_from-SameFate py sub) h))
        (fill_element-SameFate py n v m)
