-- ===== src/Analyzer/Correlate/Sbi.antt =====
-- The flow of each SBI message (5gcap/fivegcap/correlate.py, `_join_sbi`).
use g_pcap.Prelude.{
  ℕ, zero, suc, ◌+◌, ◌<◌, is, is_some, if◌then◌else◌, ap, ◌≡◌, refl, sym, ◌∙◌, String, Option, none,
  some, List, [], ◌∷◌, arith, get_elem?, inl, inr, Bool-cases, Option-cases, ◌↔◌, ℕ_discrete,
}
use g_pcap.Prelude.Dict.{Dict, get, get-put}
use g_pcap.Analyzer.Pfcp.{PfcpMsg}
use g_pcap.Analyzer.Flow.{Flow}
use g_pcap.Analyzer.Sbi.{SbiMsg, Direction, request, response}
use g_pcap.Analyzer.Correlate.{
  Claims, Links, no_links, set_flow, link, link_if, sort_refs, StreamId, StreamId-discrete,
  stream_of, request_flow, put_if, request_links, response_flow, response_links, join_sbi,
  flow_supis, correlate,
}
use g_pcap.Analyzer.Correlate.N4.{linked-get}
use g_pcap.Analyzer.Correlate.Streams.{
  IsStreamLink, IsSbiLink, by_supi, by_stream, request_flow-IsRequestLink, request_flow_intro,
  last_flow, request_links-get_stream, last_flow-IsStreamLink, last_flow_intro,
}

-- The flow that the two loops give to a message of the capture.
abbrev flow_given : Claims String → List SbiMsg → SbiMsg → Option ℕ
flow_given claims msgs m = flow_by m.direction
  where
    flow_by : Direction → Option ℕ
    flow_by request = request_flow claims m
    flow_by response = if is_some m.conn then last_flow claims (stream_of m) msgs else none

module _ (claims : Claims String) where
  request_links_below :
      (i j : ℕ) (ms : List SbiMsg) (l : Links) (rf : Dict StreamId ℕ)
      → j < i
      → get ℕ_discrete j (request_links claims i ms l rf).0.flow_of ≡ get ℕ_discrete j l.flow_of
  unfolding request_links
  request_links_below i j [] l rf h = refl
  request_links_below i j (m ∷ ms) l rf h =
      let o = request_flow claims m in
      ground (
        arith,
        linked-get i j o l,
        request_links_below (suc i) j ms (link_if i o (set_flow i none l))
            (put_if (stream_of m) o rf),
      )

  pub request_links-get :
      (i n j : ℕ) (ms : List SbiMsg) (l : Links) (rf : Dict StreamId ℕ) (m : SbiMsg)
      → get_elem? ms n ≡ some m
      → j ≡ i + n
      → get ℕ_discrete j (request_links claims i ms l rf).0.flow_of ≡ some (request_flow claims m)
  unfolding request_links
  request_links-get i n j [] l rf m e same = cc
  request_links-get i zero j (x ∷ ms) l rf m e same =
      let o = request_flow claims x in
      let here : x ≡ m = ground arith in
      ground (
        arith,
        linked-get i j o l,
        request_links_below (suc i) j ms (link_if i o (set_flow i none l))
            (put_if (stream_of x) o rf),
      )
  request_links-get i (suc n) j (x ∷ ms) l rf m e same =
      let o = request_flow claims x in
      request_links-get (suc i) n j ms (link_if i o (set_flow i none l)) (put_if (stream_of x) o rf)
        m e (omega arith)

module _ (rf : Dict StreamId ℕ) where
  -- What is left where a response has no flow.
  abbrev over : Option ℕ → Option (Option ℕ) → Option (Option ℕ)
  over none before = before
  over (some id) before = some (some id)

  link_if-get :
      (i j : ℕ) (o : Option ℕ) (l : Links)
      → get ℕ_discrete j (link_if i o l).flow_of ≡ (
          if is (ℕ_discrete i j)
          then over o (get ℕ_discrete j l.flow_of)
          else get ℕ_discrete j l.flow_of)
  unfolding link_if link
  link_if-get i j none l = ground arith
  link_if-get i j (some id) l = ground (arith, get-put ℕ_discrete i j (some id) l.flow_of)

  response_links_below :
      (i j : ℕ) (ms : List SbiMsg) (l : Links)
      → j < i
      → get ℕ_discrete j (response_links rf i ms l).flow_of ≡ get ℕ_discrete j l.flow_of
  unfolding response_links
  response_links_below i j [] l h = refl
  response_links_below i j (m ∷ ms) l h = ground (
    arith,
    link_if-get i j (response_flow rf m) l,
    response_links_below (suc i) j ms (link_if i (response_flow rf m) l),
  )

  response_links-get :
      (i n j : ℕ) (ms : List SbiMsg) (l : Links) (m : SbiMsg)
      → get_elem? ms n ≡ some m
      → j ≡ i + n
      → get ℕ_discrete j (response_links rf i ms l).flow_of
        ≡ over (response_flow rf m) (get ℕ_discrete j l.flow_of)
  unfolding response_links
  response_links-get i n j [] l m e same = cc
  response_links-get i zero j (x ∷ ms) l m e same =
      let here : x ≡ m = ground arith in
      ground (
        arith,
        link_if-get i j (response_flow rf x) l,
        response_links_below (suc i) j ms (link_if i (response_flow rf x) l),
      )
  response_links-get i (suc n) j (x ∷ ms) l m e same =
      response_links-get (suc i) n j ms (link_if i (response_flow rf x) l) m e (omega arith)
      ∙ ap (over (response_flow rf m))
          (let g = link_if-get i j (response_flow rf x) l in ground arith)

flow_given-request :
    (claims : Claims String) (msgs : List SbiMsg) (m : SbiMsg)
    → m.direction ≡ request
    → flow_given claims msgs m ≡ request_flow claims m
unfolding request_flow
flow_given-request claims msgs m e = rw e refl

-- The two loops together, at one message, once the table of the streams is known.
over-flow_given :
    (claims : Claims String) (msgs : List SbiMsg) (rf : Dict StreamId ℕ) (m : SbiMsg)
    (d : Direction)
    → m.direction ≡ d
    → get StreamId-discrete (stream_of m) rf ≡ last_flow claims (stream_of m) msgs
    → over rf (response_flow rf m) (some (request_flow claims m)) ≡ some (flow_given claims msgs m)
unfolding response_flow request_flow
over-flow_given claims msgs rf m request e g = rw e refl
over-flow_given claims msgs rf m response e g = elim (Bool-cases (is_some m.conn)) [
  | inr c ↦ rw (e, c) refl
  | inl c ↦ elim (Option-cases (last_flow claims (stream_of m) msgs)) [
    | inl none_there ↦ rw (e, c, g, none_there) refl
    | inr (id, there) ↦ rw (e, c, g, there) refl
  ]
]

module _ (flows : List Flow) (sbi : List SbiMsg) (n4 : List PfcpMsg) where
  streams-last_flow :
      (k : StreamId)
      → get StreamId-discrete k (request_links (flow_supis flows) 0 sbi no_links []).1
        ≡ last_flow (flow_supis flows) k sbi
  unfolding get
  streams-last_flow k =
      let g = request_links-get_stream (flow_supis flows) k 0 sbi no_links [] in
      elim (Option-cases (last_flow (flow_supis flows) k sbi)) [
        | inl e ↦ g ∙ rw e refl
        | inr (id, e) ↦ g ∙ rw e refl
      ]

  correlate-flow_given :
      (i : ℕ) (m : SbiMsg)
      → get_elem? sbi i ≡ some m
      → get ℕ_discrete i (correlate flows sbi n4).sbi.flow_of
        ≡ some (flow_given (flow_supis flows) sbi m)
  unfolding correlate join_sbi sort_refs
  correlate-flow_given i m e =
      let claims = flow_supis flows in
      let r = request_links claims 0 sbi no_links [] in
      response_links-get r.1 0 i i sbi r.0 m e (omega arith)
      ∙ ap (over r.1 (response_flow r.1 m))
          (request_links-get claims 0 i i sbi no_links [] m e (omega arith))
      ∙ over-flow_given claims sbi r.1 m m.direction refl (streams-last_flow (stream_of m))

  IsStreamLink-imp :
      {P Q : SbiMsg → ℕ → Type 0} (k : StreamId) (id : ℕ)
      → ((m : SbiMsg) (j : ℕ) → P m j → Q m j)
      → ((m : SbiMsg) (j : ℕ) → Q m j → P m j)
      → IsStreamLink P sbi k id
      → IsStreamLink Q sbi k id
  IsStreamLink-imp k id f g h = record {
    at = h.at;
    req = h.req;
    found = h.found;
    same_stream = h.same_stream;
    linked_to = f h.req id h.linked_to;
    last = λ n m other lt e s q. h.last n m other lt e s (g m other q);
  }

  flow_given-IsSbiLink :
      (m : SbiMsg) (id : ℕ) (d : Direction)
      → m.direction ≡ d
      → flow_given (flow_supis flows) sbi m ≡ some id
      → IsSbiLink flows sbi m id
  flow_given-IsSbiLink m id request e h =
      by_supi (request_flow-IsRequestLink flows m id (sym (flow_given-request _ sbi m e) ∙ h))
  flow_given-IsSbiLink m id response e h =
      let h' : (if is_some m.conn then last_flow (flow_supis flows) (stream_of m) sbi else none)
          ≡ some id =
        rw e at h in
      let l : last_flow (flow_supis flows) (stream_of m) sbi ≡ some id = ground arith in
      by_stream e (ground arith) (
        IsStreamLink-imp (stream_of m) id (request_flow-IsRequestLink flows)
          (request_flow_intro flows)
          (last_flow-IsStreamLink (flow_supis flows) (stream_of m) sbi id l))

  flow_given_intro :
      (m : SbiMsg) (id : ℕ)
      → IsSbiLink flows sbi m id
      → flow_given (flow_supis flows) sbi m ≡ some id
  flow_given_intro m id (by_supi h) =
      flow_given-request _ sbi m h.is_request ∙ request_flow_intro flows m id h
  flow_given_intro m id (by_stream e c h) =
      rw (e, c)
        (last_flow_intro (flow_supis flows) (stream_of m) sbi id (
          IsStreamLink-imp (stream_of m) id (request_flow_intro flows)
            (request_flow-IsRequestLink flows) h))

  -- An SBI message is linked to a flow exactly if it is a readable request whose SUPI that flow
  -- declares and no flow with another id does, or a response, readable or not, on whose stream the
  -- last request that is so linked belongs to the flow.
  pub correlate-IsSbiLink :
      (i : ℕ) (m : SbiMsg) (id : ℕ)
      → get_elem? sbi i ≡ some m
      → (get ℕ_discrete i (correlate flows sbi n4).sbi.flow_of ≡ some (some id))
        ↔ IsSbiLink flows sbi m id
  correlate-IsSbiLink i m id e = (
    λ linked. flow_given-IsSbiLink m id m.direction refl (let g = correlate-flow_given i m e in cc),
    λ h. correlate-flow_given i m e ∙ ap some (flow_given_intro m id h),
  )
