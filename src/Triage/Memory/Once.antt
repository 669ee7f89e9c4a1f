-- ===== src/Triage/Memory/Once.antt =====
-- An episode is recorded once (triage/triage/memory.py, `consolidate`).
use package.text.Mathlib.Text.{◌==◌ as str_eq}
use package.text.Mathlib.TextEquality.{eq_iff}
use g_pcap.Prelude.{
  ℕ, String, true, false, ◌≡◌, refl, ap, ◌∙◌, Option, none, some, List, [], ◌∷◌, ◌++◌, Bool-cases,
  inl, inr, arith, In,
}
use g_pcap.Prelude.Sets.{mem_of_In}
use g_pcap.Jsonl.{Codec, load}
use g_pcap.Jsonl.RoundTrip.{IsClosed, IsPrinted, load-add_record}
use g_pcap.Triage.Memory.{
  Episode, Cited-discrete, cited_pairs, all_in, same_key, find_same, written, consolidate,
}

all_in_of :
    (xs ys : List (String × Option ℕ))
    → ((p : String × Option ℕ) → In p xs → In p ys)
    → all_in xs ys ≡ true
unfolding all_in
all_in_of [] ys h = refl
all_in_of (x ∷ xs) ys h =
    let rest = all_in_of xs ys (λ p m. h p (inr m)) in
    let first = mem_of_In Cited-discrete x ys (h x (inl refl)) in ground (arith, rest, first)

same_key_refl : (e : Episode) → same_key e e ≡ true
unfolding same_key
same_key_refl e =
    let all = all_in_of (cited_pairs e.cited_evidence) (cited_pairs e.cited_evidence) (λ p m. m) in
    let same : str_eq e.incident_type e.incident_type ≡ true =
      (eq_iff e.incident_type e.incident_type).1 refl in
    rw (same, all) refl

-- After an episode was appended, one with its key is found.
find_same-append :
    (e : Episode) (es : List Episode) → (f : Episode) × (find_same e (es ++ e ∷ []) ≡ some f)
unfolding find_same
find_same-append e [] = (e, rw (same_key_refl e) refl)
find_same-append e (f ∷ fs) =
    let (g, rest) = find_same-append e fs in
    elim (Bool-cases (same_key f e)) [ inl q ↦ (f, rw q refl) | inr q ↦ (g, rw q rest) ]

written_again :
    (cd : Codec Episode) (e : Episode) (file : Option String)
    → IsPrinted cd e
    → IsClosed file
    → (o : Option Episode) → find_same e (load cd file) ≡ o
    → (f : Episode) × (find_same e (load cd (written cd e file o).1) ≡ some f)
written_again cd e file h c (some f) q = (f, q)
written_again cd e file h c none q =
    let (back, closed) = load-add_record cd e file h c in
    let (f, r) = find_same-append e (load cd file) in (f, ap (find_same e) back ∙ r)

-- In a store whose lines are ended, an episode that is read back from its line and was
-- consolidated is not written by a second consolidation, which leaves the file as it is.
pub consolidate_once :
    (cd : Codec Episode) (e : Episode) (file : Option String)
    → IsPrinted cd e
    → IsClosed file
    → ((consolidate cd e (consolidate cd e file).1).0.1 ≡ false)
      × ((consolidate cd e (consolidate cd e file).1).1 ≡ (consolidate cd e file).1)
unfolding consolidate
consolidate_once cd e file h c =
    let (f, q) = written_again cd e file h c (find_same e (load cd file)) refl in
    (rw q refl, rw q refl)
