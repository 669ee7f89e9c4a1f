-- ===== src/Analyzer/Correlate/Streams.antt =====
-- The flow of a stream, by its last linked request (5gcap/fivegcap/correlate.py, `_join_sbi`).
use g_pcap.Prelude.{
  ℕ, zero, suc, ◌<◌, true, false, is, is_some, if◌then◌else◌, ap, ◌≡◌, refl, ◌∙◌, String, Option,
  none, some, List, [], ◌∷◌, arith, get_elem?, inl, inr, Option-cases, dec_lt,
}
use g_pcap.Prelude.Dict.{Dict, get, get-put}
use g_pcap.Prelude.Text.{String-discrete}
use g_pcap.Analyzer.Flow.{Flow}
use g_pcap.Analyzer.Sbi.{SbiMsg, Direction, request, response}
use g_pcap.Analyzer.Correlate.{
  Claims, Links, set_flow, link_if, is_request, StreamId, StreamId-discrete, stream_of,
  request_flow, put_if, request_links, supi_keys, flow_supis,
}
use g_pcap.Analyzer.Correlate.Claims.{IsOwner, owner-IsOwner, owner_of_IsOwner}

-- A readable request on a known connection declares a SUPI that the flow owns.
pub record IsRequestLink (flows : List Flow) (m : SbiMsg) (id : ℕ) : Type 0 where
  pub is_request : m.direction ≡ request
  pub readable : m.unparsed ≡ none
  pub connected : is_some m.conn ≡ true
  pub supi : String
  pub declared : m.supi ≡ some supi
  pub owned : IsOwner supi_keys flows supi id

-- The last request of the stream that is linked at all is linked to the flow.
pub record IsStreamLink (linked : SbiMsg → ℕ → Type 0) (msgs : List SbiMsg) (k : StreamId) (id : ℕ)
    : Type 0 where
  pub at : ℕ
  pub req : SbiMsg
  pub found : get_elem? msgs at ≡ some req
  pub same_stream : stream_of req ≡ k
  pub linked_to : linked req id
  pub last :
      (n : ℕ) (m : SbiMsg) (other : ℕ)
      → at < n
      → get_elem? msgs n ≡ some m
      → stream_of m ≡ k
      → ¬ linked m other

-- A request is linked by its SUPI, a response by the requests of its stream.
pub data IsSbiLink (flows : List Flow) (msgs : List SbiMsg) (m : SbiMsg) (id : ℕ) : Type 0 where
  by_supi : IsRequestLink flows m id → IsSbiLink flows msgs m id
  by_stream :
      m.direction ≡ response
      → is_some m.conn ≡ true
      → IsStreamLink (IsRequestLink flows) msgs (stream_of m) id
      → IsSbiLink flows msgs m id

pub request_flow-IsRequestLink :
    (flows : List Flow) (m : SbiMsg) (id : ℕ)
    → request_flow (flow_supis flows) m ≡ some id
    → IsRequestLink flows m id
unfolding request_flow flow_supis
request_flow-IsRequestLink flows m id e = elim (Option-cases m.supi) [
  | inl none_there ↦ ground arith
  | inr (s, there) ↦ record {
    is_request = direction_of m.direction (ground arith);
    readable = unread m.unparsed (ground arith);
    connected = ground arith;
    supi = s;
    declared = there;
    owned = owner-IsOwner String-discrete supi_keys flows s id (ground arith);
  }
]
  where
    direction_of : (d : Direction) → is_request d ≡ true → d ≡ request
    direction_of request h = refl
    direction_of response h = cc

    unread : (o : Option String) → is_some o ≡ false → o ≡ none
    unread none h = refl
    unread (some s) h = cc

pub request_flow_intro :
    (flows : List Flow) (m : SbiMsg) (id : ℕ)
    → IsRequestLink flows m id
    → request_flow (flow_supis flows) m ≡ some id
unfolding request_flow flow_supis
request_flow_intro flows m id h =
    let o = owner_of_IsOwner String-discrete supi_keys flows h.supi id h.owned in
    rw (h.is_request, h.readable, h.connected, h.declared) o

module _ (claims : Claims String) (k : StreamId) where
  -- The flow of the stream's last linked request.
  pub last_flow : List SbiMsg → Option ℕ
  last_flow [] = none
  last_flow (m ∷ ms) = elim (last_flow ms) [
    | some id ↦ some id
    | none ↦ if is (StreamId-discrete (stream_of m) k) then request_flow claims m else none
  ]

  abbrev IsLinked : SbiMsg → ℕ → Type 0
  IsLinked m id = request_flow claims m ≡ some id

  put_if-get :
      (s : StreamId) (o : Option ℕ) (rf : Dict StreamId ℕ)
      → get StreamId-discrete k (put_if s o rf)
        ≡ elim (if is (StreamId-discrete s k) then o else none) [
          | some id ↦ some id
          | none ↦ get StreamId-discrete k rf
        ]
  put_if-get s none rf = ground arith
  put_if-get s (some id) rf = ground (arith, get-put StreamId-discrete s k id rf)

  pub request_links-get_stream :
      (i : ℕ) (ms : List SbiMsg) (l : Links) (rf : Dict StreamId ℕ)
      → get StreamId-discrete k (request_links claims i ms l rf).1
        ≡ elim (last_flow ms) [ some id ↦ some id | none ↦ get StreamId-discrete k rf ]
  unfolding request_links last_flow
  request_links-get_stream i [] l rf = refl
  request_links-get_stream i (m ∷ ms) l rf =
      let l' = link_if i (request_flow claims m) (set_flow i none l) in
      let rest =
        request_links-get_stream (suc i) ms l' (put_if (stream_of m) (request_flow claims m) rf) in
      elim (Option-cases (last_flow ms)) [
        | inl e ↦ rw e (rest ∙ rw e (put_if-get (stream_of m) (request_flow claims m) rf))
        | inr (id, e) ↦ rw e (rest ∙ rw e refl)
      ]

  last_flow-none :
      (ms : List SbiMsg) (n : ℕ) (m : SbiMsg) (other : ℕ)
      → last_flow ms ≡ none
      → get_elem? ms n ≡ some m
      → stream_of m ≡ k
      → ¬ IsLinked m other
  unfolding last_flow
  last_flow-none [] n m other h e s p = cc
  last_flow-none (x ∷ ms) zero m other h e s p = elim (Option-cases (last_flow ms)) [
    | inl q ↦ let here : x ≡ m = ground arith in ground arith
    | inr (id, q) ↦ ground arith
  ]
  last_flow-none (x ∷ ms) (suc n) m other h e s p = elim (Option-cases (last_flow ms)) [
    | inl q ↦ last_flow-none ms n m other q e s p
    | inr (id, q) ↦ ground arith
  ]

  IsStreamLink-suc :
      (x : SbiMsg) (ms : List SbiMsg) (id : ℕ)
      → IsStreamLink IsLinked ms k id
      → IsStreamLink IsLinked (x ∷ ms) k id
  IsStreamLink-suc x ms id h = record {
    at = suc h.at;
    req = h.req;
    found = h.found;
    same_stream = h.same_stream;
    linked_to = h.linked_to;
    last = later;
  }
    where
      later :
          (n : ℕ) (m : SbiMsg) (other : ℕ)
          → suc h.at < n
          → get_elem? (x ∷ ms) n ≡ some m
          → stream_of m ≡ k
          → ¬ IsLinked m other
      later zero m other lt e s = absurd (omega arith)
      later (suc n) m other lt e s = h.last n m other (omega arith) e s

  pub last_flow-IsStreamLink :
      (ms : List SbiMsg) (id : ℕ) → last_flow ms ≡ some id → IsStreamLink IsLinked ms k id
  unfolding last_flow
  last_flow-IsStreamLink [] id e = cc
  last_flow-IsStreamLink (x ∷ ms) id e = elim (Option-cases (last_flow ms)) [
    | inr (j, q) ↦
        let same : j ≡ id = ground arith in
        IsStreamLink-suc x ms id (last_flow-IsStreamLink ms id (q ∙ ap some same))
    | inl q ↦ record {
      at = 0;
      req = x;
      found = refl;
      same_stream = ground arith;
      linked_to = ground arith;
      last = later q;
    }
  ]
    where
      later :
          last_flow ms ≡ none
          → (n : ℕ) (m : SbiMsg) (other : ℕ) → 0 < n
          → get_elem? (x ∷ ms) n ≡ some m
          → stream_of m ≡ k
          → ¬ IsLinked m other
      later q zero m other lt e s = absurd (omega arith)
      later q (suc n) m other lt e s = last_flow-none ms n m other q e s

  IsStreamLink-unique :
      (ms : List SbiMsg) (a b : ℕ)
      → IsStreamLink IsLinked ms k a
      → IsStreamLink IsLinked ms k b
      → a ≡ b
  IsStreamLink-unique ms a b h g = elim (dec_lt h.at g.at) [
    | yes p ↦ absurd (h.last g.at g.req b p g.found g.same_stream g.linked_to)
    | no p ↦ elim (dec_lt g.at h.at) [
      | yes q ↦ absurd (g.last h.at h.req a q h.found h.same_stream h.linked_to)
      | no q ↦
          let same : h.at ≡ g.at = omega arith in
          let f = h.found in
          let f' = g.found in let la = h.linked_to in let lb = g.linked_to in ground arith
    ]
  ]

  pub last_flow_intro :
      (ms : List SbiMsg) (id : ℕ) → IsStreamLink IsLinked ms k id → last_flow ms ≡ some id
  last_flow_intro ms id h = elim (Option-cases (last_flow ms)) [
    | inl e ↦ absurd (last_flow-none ms h.at h.req id e h.found h.same_stream h.linked_to)
    | inr (j, e) ↦ rw e (ap some (IsStreamLink-unique ms j id (last_flow-IsStreamLink ms j e) h))
  ]
