-- ===== src/Analyzer/Correlate/Mirror.antt =====
-- The references of a flow mirror the links of the messages (5gcap/fivegcap/correlate.py).
use mathlib.Core.Logic.{ite}
use g_pcap.Prelude.{
  ℕ, suc, ◌+◌, ◌<◌, ◌≤◌, ap, ◌≡◌, ◌≢◌, refl, sym, ◌∙◌, subst, String, Option, none, some, List, [],
  ◌∷◌, ◌++◌, map, arith, get_elem?, In, In-append_left, In-append_right, All, All-In, inl, inr,
  Option-cases, ◌⊎◌, ◌↔◌, ℕ_discrete,
}
use g_pcap.Prelude.Dict.{Dict, get, get-put}
use g_pcap.Prelude.Sort.{sort_by, In-sort_by, All-sort_by}
use g_pcap.Analyzer.Pfcp.{PfcpMsg}
use g_pcap.Analyzer.Value.{Tunnel}
use g_pcap.Analyzer.Flow.{Flow}
use g_pcap.Analyzer.Sbi.{SbiMsg}
use g_pcap.Analyzer.Correlate.{
  Claims, Links, no_links, list_at, set_flow, link, link_if, sort_refs, n4_flow, n4_links, join_n4,
  request_flow, StreamId, request_links, response_flow, response_links, join_sbi, flow_supis,
  flow_tunnels, correlate,
}
use g_pcap.Analyzer.Correlate.N4.{linked-get}
use g_pcap.Analyzer.Correlate.Sbi.{request_links-get}

abbrev pub refs_at : Links → ℕ → List ℕ
refs_at l id = list_at (get ℕ_discrete id l.refs)

abbrev pub flow_at : Links → ℕ → Option (Option ℕ)
flow_at l i = get ℕ_discrete i l.flow_of

-- A flow refers to just the messages that are linked to it.
record IsMirrored (l : Links) : Type 0 where
  to : (i id : ℕ) → In i (refs_at l id) → flow_at l i ≡ some (some id)
  from : (i id : ℕ) → flow_at l i ≡ some (some id) → In i (refs_at l id)

abbrev IsFree : Links → ℕ → Type 0
IsFree l i = (id : ℕ) → flow_at l i ≢ some (some id)

In-last : (i j : ℕ) (xs : List ℕ) → In i (xs ++ j ∷ []) → In i xs ⊎ (i ≡ j)
In-last i j [] (inl e) = inr e
In-last i j [] (inr z) = absurd z
In-last i j (x ∷ xs) (inl e) = inl (inl e)
In-last i j (x ∷ xs) (inr h) = elim (In-last i j xs h) [ inl l ↦ inl (inr l) | inr e ↦ inr e ]

set_flow-IsMirrored :
    (i : ℕ) (l : Links) → IsFree l i → IsMirrored l → IsMirrored (set_flow i none l)
unfolding set_flow
set_flow-IsMirrored i l free h = record {
  to = λ j id m.
      let old = h.to j id m in
      elim (ℕ_discrete i j) [
        | yes e ↦ absurd (free id (rw e old))
        | no n ↦ ground (arith, get-put ℕ_discrete i j none l.flow_of)
      ];
  from = λ j id e. h.from j id (ground (arith, get-put ℕ_discrete i j none l.flow_of));
}

link-IsMirrored : (i fid : ℕ) (l : Links) → IsFree l i → IsMirrored l → IsMirrored (link i fid l)
unfolding link
link-IsMirrored i fid l free h = record {
  to = λ j id m. to_case j id (ℕ_discrete fid id) (subst (In j) (refs j id) m);
  from = λ j id e. subst (In j) (sym (refs j id)) (from_case j id (ℕ_discrete fid id) e);
}
  where
    at : (j : ℕ) → flow_at (link i fid l) j ≡ ite (ℕ_discrete i j) (some (some fid)) (flow_at l j)
    at j = get-put ℕ_discrete i j (some fid) l.flow_of

    refs :
        (j id : ℕ)
        → refs_at (link i fid l) id
          ≡ ite (ℕ_discrete fid id) (refs_at l fid ++ i ∷ []) (refs_at l id)
    refs j id = ground (arith, get-put ℕ_discrete fid id (refs_at l fid ++ i ∷ []) l.refs)

    kept : (j id : ℕ) → In j (refs_at l id) → flow_at (link i fid l) j ≡ some (some id)
    kept j id m =
        let old = h.to j id m in
        elim (ℕ_discrete i j) [ yes e ↦ absurd (free id (rw e old)) | no n ↦ ground (arith, at j) ]

    to_case :
        (j id : ℕ) (d : Dec (fid ≡ id))
        → In j (ite d (refs_at l fid ++ i ∷ []) (refs_at l id))
        → flow_at (link i fid l) j ≡ some (some id)
    to_case j id (no n) m = kept j id m
    to_case j id (yes e) m = elim (In-last j i (refs_at l fid) m) [
      | inl old ↦ kept j fid old ∙ ap (λ x. some (some x)) e
      | inr same ↦ ground (arith, at j)
    ]

    from_case :
        (j id : ℕ) (d : Dec (fid ≡ id))
        → flow_at (link i fid l) j ≡ some (some id)
        → In j (ite d (refs_at l fid ++ i ∷ []) (refs_at l id))
    from_case j id (yes e) g = elim (ℕ_discrete i j) [
      | yes same ↦ In-append_right j (refs_at l fid) (i ∷ []) (inl (sym same))
      | no n ↦ In-append_left j (refs_at l fid) (i ∷ []) (h.from j fid (ground (arith, at j)))
    ]
    from_case j id (no n) g = h.from j id (ground (arith, at j))

link_if-IsMirrored :
    (i : ℕ) (o : Option ℕ) (l : Links) → IsFree l i → IsMirrored l → IsMirrored (link_if i o l)
unfolding link_if
link_if-IsMirrored i none l free h = h
link_if-IsMirrored i (some fid) l free h = link-IsMirrored i fid l free h

-- One message of a loop that first notes that it has no flow.
noted-IsMirrored :
    (i : ℕ) (o : Option ℕ) (l : Links)
    → flow_at l i ≡ none
    → IsMirrored l
    → IsMirrored (link_if i o (set_flow i none l))
noted-IsMirrored i o l e h =
    link_if-IsMirrored i o (set_flow i none l)
      (λ id. unfold set_flow in ground (arith, get-put ℕ_discrete i i none l.flow_of))
      (set_flow-IsMirrored i l (λ id f. cc) h)

abbrev IsFresh : ℕ → Links → Type 0
IsFresh i l = (j : ℕ) → i ≤ j → flow_at l j ≡ none

noted-IsFresh :
    (i : ℕ) (o : Option ℕ) (l : Links)
    → IsFresh i l
    → IsFresh (suc i) (link_if i o (set_flow i none l))
noted-IsFresh i o l h j le = ground (arith, linked-get i j o l, h j (omega arith))

n4_links-IsMirrored :
    (claims : Claims Tunnel) (i : ℕ) (ms : List PfcpMsg) (l : Links)
    → IsFresh i l
    → IsMirrored l
    → IsMirrored (n4_links claims i ms l)
unfolding n4_links
n4_links-IsMirrored claims i [] l f h = h
n4_links-IsMirrored claims i (m ∷ ms) l f h =
    n4_links-IsMirrored claims (suc i) ms _ (noted-IsFresh i (n4_flow claims m) l f)
      (noted-IsMirrored i (n4_flow claims m) l (f i (omega arith)) h)

request_links-IsMirrored :
    (claims : Claims String) (i : ℕ) (ms : List SbiMsg) (l : Links) (rf : Dict StreamId ℕ)
    → IsFresh i l
    → IsMirrored l
    → IsMirrored (request_links claims i ms l rf).0
unfolding request_links
request_links-IsMirrored claims i [] l rf f h = h
request_links-IsMirrored claims i (m ∷ ms) l rf f h =
    request_links-IsMirrored claims (suc i) ms _ _ (noted-IsFresh i (request_flow claims m) l f)
      (noted-IsMirrored i (request_flow claims m) l (f i (omega arith)) h)

-- A response was not linked as a request.
response-IsFree :
    (claims : Claims String) (rf : Dict StreamId ℕ) (m : SbiMsg) (id other : ℕ)
    → response_flow rf m ≡ some id
    → request_flow claims m ≢ some other
unfolding response_flow request_flow
response-IsFree claims rf m id other e = λ q. ground arith

response_links-IsMirrored :
    (claims : Claims String) (rf : Dict StreamId ℕ) (i : ℕ) (ms : List SbiMsg) (l : Links)
    → ((n : ℕ) (m : SbiMsg)
        → get_elem? ms n ≡ some m
        → flow_at l (i + n) ≡ some (request_flow claims m))
    → IsMirrored l
    → IsMirrored (response_links rf i ms l)
unfolding response_links
response_links-IsMirrored claims rf i [] l f h = h
response_links-IsMirrored claims rf i (m ∷ ms) l f h = elim (Option-cases (response_flow rf m)) [
  | inl e ↦ rw e (response_links-IsMirrored claims rf (suc i) ms l (later l (λ j n. refl)) h)
  | inr (id, e) ↦ rw e (
      response_links-IsMirrored claims rf (suc i) ms (link_if i (some id) l)
        (later (link_if i (some id) l) (λ j n.
          unfold link_if link in ground (arith, get-put ℕ_discrete i j (some id) l.flow_of)))
        (link_if-IsMirrored i (some id) l
          (λ other q. response-IsFree claims rf m id other e (
            let at : flow_at l i ≡ some (request_flow claims m) =
              let z : i + 0 ≡ i = omega arith in
              subst (λ j. flow_at l j ≡ some (request_flow claims m)) z (f 0 m refl) in
            cc))
          h))
]
  where
    later :
        (l' : Links)
        → ((j : ℕ) → i < j → flow_at l' j ≡ flow_at l j)
        → (n : ℕ) (x : SbiMsg) → get_elem? ms n ≡ some x
        → flow_at l' (suc i + n) ≡ some (request_flow claims x)
    later l' same n x e =
        let z : i + suc n ≡ suc i + n = omega arith in
        same (suc i + n) (omega arith)
        ∙ subst (λ j. flow_at l j ≡ some (request_flow claims x)) z (f (suc n) x e)

get-map :
    (f : List ℕ → List ℕ) (id : ℕ) (d : Dict ℕ (List ℕ))
    → f [] ≡ []
    → list_at (get ℕ_discrete id (map (λ e. (e.0, f e.1)) d)) ≡ f (list_at (get ℕ_discrete id d))
unfolding get
get-map f id [] e = sym e
get-map f id ((j, xs) ∷ d) e = ground (arith, get-map f id d e)

In-self : (xs : List ℕ) → All (λ x. In x xs) xs
In-self xs = go xs (λ x m. m)
  where
    go : (ys : List ℕ) → ((y : ℕ) → In y ys → In y xs) → All (λ x. In x xs) ys
    go [] sub = tt
    go (y ∷ ys) sub = (sub y (inl refl), go ys (λ z m. sub z (inr m)))

sort_refs-IsMirrored : (l : Links) → IsMirrored l → IsMirrored (sort_refs l)
unfolding sort_refs
sort_refs-IsMirrored l h = record {
  to = λ i id m. h.to i id (
      All-In (λ x. In x (refs_at l id)) i (sort_by (λ j. j) (refs_at l id))
        (All-sort_by (λ j. j) _ (refs_at l id) (In-self (refs_at l id))) (subst (In i) (at id) m));
  from =
      λ i id e. subst (In i) (sym (at id)) (In-sort_by (λ j. j) i (refs_at l id) (h.from i id e));
}
  where
    at : (id : ℕ) → refs_at (sort_refs l) id ≡ sort_by (λ j. j) (refs_at l id)
    at id = get-map (sort_by (λ j. j)) id l.refs (unfold sort_by in refl)

no_links-IsMirrored : IsMirrored no_links
unfolding get
no_links-IsMirrored = record { to = λ i id m. absurd m; from = λ i id e. cc }

module _ (flows : List Flow) (sbi : List SbiMsg) (n4 : List PfcpMsg) where
  n4-IsMirrored : IsMirrored (correlate flows sbi n4).n4
  unfolding correlate join_n4
  n4-IsMirrored = sort_refs-IsMirrored _ (
      n4_links-IsMirrored (flow_tunnels flows) 0 n4 no_links (λ j le. unfold get in refl)
        no_links-IsMirrored)

  sbi-IsMirrored : IsMirrored (correlate flows sbi n4).sbi
  unfolding correlate join_sbi
  sbi-IsMirrored =
      let claims = flow_supis flows in
      let r = request_links claims 0 sbi no_links [] in
      sort_refs-IsMirrored _ (
        response_links-IsMirrored claims r.1 0 sbi r.0
          (λ n m e. request_links-get claims 0 n (0 + n) sbi no_links [] m e refl)
          (request_links-IsMirrored claims 0 sbi no_links [] (λ j le. unfold get in refl)
            no_links-IsMirrored))

  -- On both planes, a flow refers to a message exactly if the message is linked to the flow.
  pub correlate-refs :
      (i id : ℕ)
      → (In i (refs_at (correlate flows sbi n4).n4 id)
          ↔ (flow_at (correlate flows sbi n4).n4 i ≡ some (some id)))
        × (In i (refs_at (correlate flows sbi n4).sbi id)
            ↔ (flow_at (correlate flows sbi n4).sbi i ≡ some (some id)))
  correlate-refs i id = (
    (n4-IsMirrored.to i id, n4-IsMirrored.from i id),
    (sbi-IsMirrored.to i id, sbi-IsMirrored.from i id),
  )
