-- ===== src/Triage/Incidents/Failed.antt =====
-- Which flows become incidents (triage/triage/incidents.py, `detect_incidents`).
use package.text.Mathlib.Text.{◌==◌ as str_eq}
use package.text.Mathlib.TextEquality.{eq_iff}
use g_pcap.Prelude.{
  String, true, ◌≡◌, refl, sym, ap, subst, ◌∙◌, any, keep, Option, none, some, List, [], ◌∷◌, In,
  inl, inr, Bool-cases,
}
use g_pcap.Triage.Export.{Procedure, ExportedFlow}
use g_pcap.Triage.Incidents.{
  Casing, is_reject, explicit_reject, shape_of, has_failed, failed_of, has_any, is_incident,
  incident_of, detect_incidents, or_blank,
}

-- A rejected procedure has failed.
reject_failed : (p : Procedure) → is_reject p ≡ true → has_failed p ≡ true
reject_failed p h = go p.outcome refl
  where
    go : (o : Option String) → p.outcome ≡ o → has_failed p ≡ true
    go none e = rw e refl
    go (some o) e =
        let r : str_eq o "reject" ≡ true = ap (λ x. str_eq (or_blank x) "reject") (sym e) ∙ h in
        let q : o ≡ "reject" = (eq_iff o "reject").0 r in rw (e, q) refl

any-keep :
    (ps : List Procedure) (p : Procedure)
    → In p ps
    → is_reject p ≡ true
    → any is_reject (keep has_failed ps) ≡ true
any-keep [] p m h = absurd m
any-keep (q ∷ ps) p (inl e) h =
    let r : is_reject q ≡ true = subst (λ x. is_reject x ≡ true) e h in
    rw (reject_failed q r, r) refl
any-keep (q ∷ ps) p (inr m) h =
    let rest = any-keep ps p m h in
    elim (Bool-cases (has_failed q)) [
      | inl e ↦ elim (Bool-cases (is_reject q)) [ inl r ↦ rw (e, r) refl | inr r ↦ rw (e, r) rest ]
      | inr e ↦ rw e rest
    ]

any-has_any : (ps : List Procedure) → any is_reject ps ≡ true → has_any ps ≡ true
any-has_any [] h = cc
any-has_any (p ∷ ps) h = refl

listed :
    (cs : Casing) (fs : List ExportedFlow) (f : ExportedFlow)
    → In f fs
    → is_incident f ≡ true
    → In (incident_of cs f) (detect_incidents cs fs)
unfolding detect_incidents
listed cs [] f m h = absurd m
listed cs (g ∷ fs) f (inl e) h =
    let r : is_incident g ≡ true = subst (λ x. is_incident x ≡ true) e h in
    rw r (inl (ap (incident_of cs) e))
listed cs (g ∷ fs) f (inr m) h =
    let rest = listed cs fs f m h in
    elim (Bool-cases (is_incident g)) [ inl e ↦ rw e (inr rest) | inr e ↦ rw e rest ]

-- Each flow of an export with a rejected procedure has its incident, as an explicit reject.
pub detect_incidents_rejected :
    (cs : Casing) (fs : List ExportedFlow) (f : ExportedFlow) (p : Procedure)
    → In f fs
    → In p f.procedures
    → is_reject p ≡ true
    → In (incident_of cs f) (detect_incidents cs fs) × ((incident_of cs f).shape ≡ explicit_reject)
unfolding is_incident shape_of
detect_incidents_rejected cs fs f p m n h =
    let rejected = any-keep f.procedures p n h in
    let some_failed = any-has_any (failed_of f) rejected in
    (listed cs fs f m (rw some_failed refl), rw rejected refl)
