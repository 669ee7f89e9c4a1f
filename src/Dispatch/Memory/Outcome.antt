-- ===== src/Dispatch/Memory/Outcome.antt =====
-- The outcome that is set at close (dispatch/dispatch/memory.py, `EpisodeStore.set_outcome`).
use package.text.Mathlib.Text.{◌==◌ as str_eq}
use g_pcap.Prelude.{
  String, false, ◌≡◌, refl, sym, ap, ◌∙◌, if◌then◌else◌, Option, none, some, List, [], ◌∷◌, map,
  Bool-cases, Option-cases, inl, inr, arith, All,
}
use g_pcap.Prelude.Chars.{join_texts, is_empty_text}
use g_pcap.Prelude.Lines.{
  split_lines, IsLine, split_lines-All, split_lines-join_texts, split_lines_cons,
}
use g_pcap.Jsonl.{Codec, cons_some, read_lines, load}
use g_pcap.Jsonl.RoundTrip.{IsPrinted}
use g_pcap.Dispatch.Executor.{ok}
use g_pcap.Dispatch.Memory.{Episode, with_outcome, close_episode, close_line, last_of, set_outcome}

module _ (cd : Codec Episode) (incident_id outcome : String) (evidence : Option String)
    (h : (l : String) (x : Episode)
      → cd.parse l ≡ some x
      → IsPrinted cd (with_outcome cd outcome evidence x)) where
  -- An episode of the incident with its outcome; any other as it is.
  abbrev pub closed : Episode → Episode
  closed e = if str_eq e.incident_id incident_id then with_outcome cd outcome evidence e else e

  close_episode-IsLine :
      (l : String)
      → IsLine l
      → (o : Option Episode) → cd.parse l ≡ o
      → IsLine (close_episode cd incident_id outcome evidence l o)
  close_episode-IsLine l p none q = p
  close_episode-IsLine l p (some x) q = elim (Bool-cases (str_eq x.incident_id incident_id)) [
    | inl e ↦ rw e (h l x q).line
    | inr e ↦ rw e p
  ]

  close_line-IsLine :
      (l : String) → IsLine l → IsLine (close_line cd incident_id outcome evidence l)
  unfolding close_line
  close_line-IsLine l p = elim (Bool-cases (is_empty_text l)) [
    | inl e ↦ rw e p
    | inr e ↦ rw e (close_episode-IsLine l p (cd.parse l) refl)
  ]

  map-All :
      (ls : List String)
      → All IsLine ls
      → All IsLine (map (close_line cd incident_id outcome evidence) ls)
  map-All [] p = tt
  map-All (l ∷ ls) p = (close_line-IsLine l p.0, map-All ls p.1)

  -- One line, read after it was closed.
  abbrev read_line : String → List Episode → List Episode
  read_line l es = if is_empty_text l then es else cons_some cd (cd.parse l) es

  close_parsed :
      (l : String) (es : List Episode) (o : Option Episode)
      → is_empty_text l ≡ false
      → cd.parse l ≡ o
      → read_line (close_episode cd incident_id outcome evidence l o) (map closed es)
        ≡ map closed (cons_some cd o es)
  close_parsed l es none e q = rw (e, q) refl
  close_parsed l es (some x) e q = elim (Bool-cases (str_eq x.incident_id incident_id)) [
    | inl c ↦ rw (c, (h l x q).nonempty, (h l x q).back) refl
    | inr c ↦ rw (c, e, q) refl
  ]

  close_one :
      (l : String) (es : List Episode)
      → read_line (close_line cd incident_id outcome evidence l) (map closed es)
        ≡ map closed (read_line l es)
  unfolding close_line
  close_one l es = elim (Bool-cases (is_empty_text l)) [
    | inl e ↦ rw (e, e) refl
    | inr e ↦ rw e (close_parsed l es (cd.parse l) e refl)
  ]

  read_lines-close :
      (ls : List String)
      → read_lines cd (map (close_line cd incident_id outcome evidence) ls)
        ≡ map closed (read_lines cd ls)
  unfolding read_lines
  read_lines-close [] = refl
  read_lines-close (l ∷ ls) =
      ap (λ es. read_line (close_line cd incident_id outcome evidence l) es) (read_lines-close ls)
      ∙ close_one l (read_lines cd ls)

  split-join :
      (ls : List String) → (ls ≡ [] → ⊥) → All IsLine ls → split_lines (join_texts "\n" ls) ≡ ls
  split-join [] n p = absurd (n refl)
  split-join (l ∷ ls) n p = split_lines-join_texts l ls p

  map_cons :
      (ls : List String)
      → (ls ≡ [] → ⊥)
      → map (close_line cd incident_id outcome evidence) ls ≡ []
      → ⊥
  map_cons [] n e = n refl
  map_cons (l ∷ ls) n e = cc

  load_closed :
      (file : String)
      → load cd (
          some
            (join_texts "\n" (map (close_line cd incident_id outcome evidence) (split_lines file))))
        ≡ map closed (load cd (some file))
  unfolding load
  load_closed file =
      let ls = split_lines file in
      let changed = map (close_line cd incident_id outcome evidence) ls in
      ap (read_lines cd) (
        split-join changed (map_cons ls (split_lines_cons file))
          (map-All ls (split_lines-All file)))
      ∙ read_lines-close ls

  -- Where the episodes of the store are read back from their lines once they have the outcome, the store that `set_outcome` leaves is read as it was
  -- before, but for the episodes of the incident, which all have the outcome and its evidence.
  pub load-set_outcome :
      (file new : String) (e : Episode)
      → set_outcome cd incident_id outcome evidence file ≡ ok (e, new)
      → load cd (some new) ≡ map closed (load cd (some file))
  unfolding set_outcome
  load-set_outcome file new e q =
      elim (Option-cases (last_of cd incident_id none (load cd (some file)))) [
        | inl n ↦ ground (arith, n, q)
        | inr (x, n) ↦
            let same : join_texts "\n"
                  (map (close_line cd incident_id outcome evidence) (split_lines file))
                ≡ new =
              ground (arith, n, q) in
            ap (λ t. load cd (some t)) (sym same) ∙ load_closed file
      ]
