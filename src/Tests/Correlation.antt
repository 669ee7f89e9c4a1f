-- ===== src/Tests/Correlation.antt =====
-- Tests of dispatch/dispatch/correlation.py: two items that share an IMSI, one that does not, and
-- one outside the window.
use g_pcap.Prelude.{ℕ, ◌≡◌, refl, String, Option, none, some, List, [], ◌∷◌, All, ℕ_discrete}
use g_pcap.Prelude.Dict.{Dict, get, put}
use g_pcap.Prelude.Sets.{mem}
use g_pcap.Prelude.Sort.{sort_by}
use g_pcap.Prelude.Text.{String-discrete}
use g_pcap.Dispatch.Correlation.{
  Evidence, KeyValue-discrete, index_keys, index_all, is_in, differs, disagree, add_link,
  link_items, try_pair, for_b, for_a, for_values, link,
}
use g_pcap.Dispatch.Correlation.Sound.{IsLink, link-IsLink}

abbrev item : ℕ → Dict String (Option String) → Evidence String
item ts keys = record { keys = keys; ts = ts }

abbrev evidence : List (Evidence String)
evidence =
    item 5 (("imsi", some "001") ∷ ("nf", some "amf") ∷ [])
    ∷ item 6 (("imsi", none) ∷ ("nf", some "smf") ∷ [])
    ∷ item 7 (("imsi", some "001") ∷ ("flow", some "1") ∷ [])
    ∷ item 90 (("flow", some "1") ∷ [])
    ∷ []

program : Unit {0}
unfolding link index_all index_keys for_values for_a for_b try_pair link_items add_link is_in
    disagree differs KeyValue-discrete String-discrete get put mem sort_by
program = tt

evidence_links :
    link String-discrete evidence (0, 10)
    ≡ record { a = 0; b = 2; key = "imsi"; value = "001" } ∷ []
unfolding program ℕ_discrete
evidence_links = refl

link-IsLink_example : All (IsLink evidence (0, 10)) (link String-discrete evidence (0, 10))
link-IsLink_example = link-IsLink String-discrete evidence (0, 10)
