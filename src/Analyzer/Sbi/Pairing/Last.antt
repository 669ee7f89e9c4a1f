-- ===== src/Analyzer/Sbi/Pairing/Last.antt =====
-- The last request and the last response of each stream make its procedure (5gcap/fivegcap/sbi.py,
-- `pair_procedures`).
use g_pcap.Prelude.{
  ℕ, ap, ◌≡◌, refl, sym, ◌∙◌, subst, Option, none, some, List, [], ◌∷◌, ◌++◌, arith, In, inl, inr,
  All, All-append, In-append_left, In-append_right, Bool-cases, Option-cases, ℕ_discrete,
}
use g_pcap.Prelude.Dict.{Dict, get, put, get-put, IsDict, put-IsDict, All-get_intro}
use g_pcap.Prelude.Sort.{All-sort_by, In-sort_by}
use g_pcap.Prelude.Text.{truthy}
use g_pcap.Analyzer.Sbi.{SbiMsg, Conn, Conn-discrete, Direction, request, response}
use g_pcap.Analyzer.Sbi.Pairing.{
  SbiProcedure, Bucket, Buckets, streams_at, file, file_in, sort_out, sort_all, Paired, pair_one,
  pair_streams, pair_conns, pair_procedures,
}
use g_pcap.Analyzer.Sbi.Pairing.Filed.{
  last_on, outcome_with, IsOfStream, lookup, bucket_of, lookup-sort_all,
}

-- Each connection and each stream is filed once.
record IsNested (b : Bucket) : Type 0 where
  once : IsDict Conn-discrete b
  streams_once :
      (c : Conn) (d : Dict ℕ SbiMsg) → get Conn-discrete c b ≡ some d → IsDict ℕ_discrete d

streams_at-IsDict :
    (b : Bucket) (c : Conn) → IsNested b → IsDict ℕ_discrete (streams_at (get Conn-discrete c b))
streams_at-IsDict b c h = elim (Option-cases (get Conn-discrete c b)) [
  | inl e ↦ rw e tt
  | inr (d, e) ↦ rw e (h.streams_once c d e)
]

file-IsNested : (c : Conn) (m : SbiMsg) (b : Bucket) → IsNested b → IsNested (file c m b)
unfolding file
file-IsNested c m b h =
    let inner = put ℕ_discrete m.stream_id m (streams_at (get Conn-discrete c b)) in
    record {
      once = put-IsDict Conn-discrete c inner b h.once;
      streams_once = λ k d e. elim (Conn-discrete c k) [
        | yes same ↦
            let p : inner ≡ d = ground (arith, get-put Conn-discrete c k inner b) in
            subst (IsDict ℕ_discrete) p
              (put-IsDict ℕ_discrete m.stream_id m _ (streams_at-IsDict b c h))
        | no n ↦ h.streams_once k d (ground (arith, get-put Conn-discrete c k inner b))
      ];
    }

sort_out-IsNested : (m : SbiMsg) (b : Buckets) → IsNested b.reqs → IsNested (sort_out m b).reqs
unfolding sort_out
sort_out-IsNested m b h = elim (Bool-cases (truthy m.unparsed)) [
  | inl e ↦ rw e h
  | inr e ↦ rw e (by_conn m.conn m.direction)
]
  where
    by_conn :
        (o : Option Conn) (d : Direction)
        → IsNested (elim o as (λ x. Buckets) [ none ↦ b | some c ↦ file_in d c m b ]).reqs
    by_conn none d = h
    by_conn (some c) request = file-IsNested c m b.reqs h
    by_conn (some c) response = h

sort_all-IsNested :
    (ms : List SbiMsg) (b : Buckets) → IsNested b.reqs → IsNested (sort_all ms b).reqs
unfolding sort_all
sort_all-IsNested [] b h = h
sort_all-IsNested (m ∷ ms) b h = sort_all-IsNested ms (sort_out m b) (sort_out-IsNested m b h)

pair_one-eq :
    (req : SbiMsg) (o : Option SbiMsg) (s : Paired)
    → (pair_one req o s).0 ≡ s.0 ++ outcome_with req o ∷ []
unfolding pair_one
pair_one-eq req none s = refl
pair_one-eq req (some rsp) s = refl

module _ (P : SbiProcedure → Type 0) where
  pair_one-All :
      (req : SbiMsg) (o : Option SbiMsg) (s : Paired)
      → P (outcome_with req o)
      → All P s.0
      → All P (pair_one req o s).0
  pair_one-All req o s p h = rw (pair_one-eq req o s) (All-append P s.0 _ h (p, tt))

  pair_streams-All :
      (rsps reqs : Dict ℕ SbiMsg) (s : Paired)
      → All (λ e. P (outcome_with e.1 (get ℕ_discrete e.0 rsps))) reqs
      → All P s.0
      → All P (pair_streams rsps reqs s).0
  unfolding pair_streams
  pair_streams-All rsps [] s f h = h
  pair_streams-All rsps ((sid, req) ∷ rest) s f h =
      pair_streams-All rsps rest _ f.1 (pair_one-All req (get ℕ_discrete sid rsps) s f.0 h)

  abbrev AllStreams : Bucket → Conn → Dict ℕ SbiMsg → Type 0
  AllStreams rsps c =
      All (λ e. P (outcome_with e.1 (get ℕ_discrete e.0 (streams_at (get Conn-discrete c rsps)))))

  pair_conns-All :
      (rsps reqs : Bucket) (s : Paired)
      → All (λ e. AllStreams rsps e.0 e.1) reqs
      → All P s.0
      → All P (pair_conns rsps reqs s).0
  unfolding pair_conns
  pair_conns-All rsps [] s f h = h
  pair_conns-All rsps ((c, streams) ∷ rest) s f h =
      pair_conns-All rsps rest _ f.1 (pair_streams-All _ streams s f.0 h)

abbrev empty_buckets : Buckets
empty_buckets = record { reqs = []; rsps = [] }

module _ (msgs : List SbiMsg) where
  abbrev filed : Buckets
  filed = sort_all msgs empty_buckets

  filed-lookup :
      (k : Direction) (c : Conn) (sid : ℕ)
      → lookup c sid (bucket_of c sid k filed) ≡ last_on k c sid msgs
  unfolding get
  filed-lookup request c sid =
      let g = lookup-sort_all c sid request msgs empty_buckets in
      elim (Option-cases (last_on request c sid msgs)) [
        | inl e ↦ g ∙ rw e refl
        | inr (x, e) ↦ g ∙ rw e refl
      ]
  filed-lookup response c sid =
      let g = lookup-sort_all c sid response msgs empty_buckets in
      elim (Option-cases (last_on response c sid msgs)) [
        | inl e ↦ g ∙ rw e refl
        | inr (x, e) ↦ g ∙ rw e refl
      ]

  filed-AllStreams :
      (c : Conn) (streams : Dict ℕ SbiMsg)
      → get Conn-discrete c filed.reqs ≡ some streams
      → AllStreams (IsOfStream msgs) filed.rsps c streams
  filed-AllStreams c streams e =
      let nested =
        sort_all-IsNested msgs empty_buckets
          (record { once = tt; streams_once = λ c d e. unfold get in cc }) in
      All-get_intro ℕ_discrete _ streams (nested.streams_once c streams e) (λ sid req at. (
        c,
        sid,
        req,
        sym (filed-lookup request c sid) ∙ rw e at,
        ap (outcome_with req) (filed-lookup response c sid),
      ))

  -- Every procedure that is returned stands for a stream of a connection: it is made of the last
  -- readable request on it and the last readable response on it, or is a timeout if it has none.
  pub pair_procedures-IsOfStream : All (IsOfStream msgs) (pair_procedures msgs).0
  unfolding pair_procedures
  pair_procedures-IsOfStream =
      let nested =
        sort_all-IsNested msgs empty_buckets
          (record { once = tt; streams_once = λ c d e. unfold get in cc }) in
      All-sort_by (λ p. p.start_ts) (IsOfStream msgs) _
        (pair_conns-All (IsOfStream msgs) filed.rsps filed.reqs ([], 0)
          (All-get_intro Conn-discrete _ filed.reqs nested.once filed-AllStreams) tt)

In-pair_one :
    (p : SbiProcedure) (req : SbiMsg) (o : Option SbiMsg) (s : Paired)
    → In p s.0
    → In p (pair_one req o s).0
In-pair_one p req o s h = rw (pair_one-eq req o s) (In-append_left p s.0 _ h)

In-pair_streams :
    (p : SbiProcedure) (rsps reqs : Dict ℕ SbiMsg) (s : Paired)
    → In p s.0
    → In p (pair_streams rsps reqs s).0
unfolding pair_streams
In-pair_streams p rsps [] s h = h
In-pair_streams p rsps ((sid, req) ∷ rest) s h =
    In-pair_streams p rsps rest _ (In-pair_one p req (get ℕ_discrete sid rsps) s h)

In-pair_conns :
    (p : SbiProcedure) (rsps reqs : Bucket) (s : Paired)
    → In p s.0
    → In p (pair_conns rsps reqs s).0
unfolding pair_conns
In-pair_conns p rsps [] s h = h
In-pair_conns p rsps ((c, streams) ∷ rest) s h =
    In-pair_conns p rsps rest _ (In-pair_streams p _ streams s h)

pair_streams-In :
    (sid : ℕ) (req : SbiMsg) (rsps reqs : Dict ℕ SbiMsg) (s : Paired)
    → get ℕ_discrete sid reqs ≡ some req
    → In (outcome_with req (get ℕ_discrete sid rsps)) (pair_streams rsps reqs s).0
unfolding pair_streams get
pair_streams-In sid req rsps [] s e = cc
pair_streams-In sid req rsps ((k, r) ∷ rest) s e = elim (ℕ_discrete k sid) [
  | yes same ↦
      let here : r ≡ req = ground arith in
      In-pair_streams _ rsps rest _ (
        rw (pair_one-eq r (get ℕ_discrete k rsps) s) (
          In-append_right _ s.0 _ (
            inl (
              ap (λ q. outcome_with q (get ℕ_discrete sid rsps)) (sym here)
              ∙ ap (λ j. outcome_with r (get ℕ_discrete j rsps)) (sym same)))))
  | no n ↦ pair_streams-In sid req rsps rest _ (ground arith)
]

pair_conns-In :
    (c : Conn) (sid : ℕ) (req : SbiMsg) (rsps reqs : Bucket) (s : Paired)
    → lookup c sid reqs ≡ some req
    → In (outcome_with req (lookup c sid rsps)) (pair_conns rsps reqs s).0
unfolding pair_conns get
pair_conns-In c sid req rsps [] s e = cc
pair_conns-In c sid req rsps ((k, streams) ∷ rest) s e = elim (Conn-discrete k c) [
  | yes same ↦ In-pair_conns _ rsps rest _ (
      subst
        (λ d.
          In (outcome_with req (lookup d sid rsps))
            (pair_streams (streams_at (get Conn-discrete k rsps)) streams s).0)
        same (pair_streams-In sid req _ streams s (ground arith)))
  | no n ↦ pair_conns-In c sid req rsps rest _ (ground arith)
]

-- Each stream with a readable request has its procedure among those that are returned, made of the
-- stream's last request and last response.
pub pair_procedures-In :
    (msgs : List SbiMsg) (c : Conn) (sid : ℕ) (req : SbiMsg)
    → last_on request c sid msgs ≡ some req
    → In (outcome_with req (last_on response c sid msgs)) (pair_procedures msgs).0
unfolding pair_procedures
pair_procedures-In msgs c sid req e =
    In-sort_by (λ p. p.start_ts) _ _
      (subst
        (λ o. In (outcome_with req o) (pair_conns (filed msgs).rsps (filed msgs).reqs ([], 0)).0)
        (filed-lookup msgs response c sid)
        (pair_conns-In c sid req (filed msgs).rsps (filed msgs).reqs ([], 0)
          (filed-lookup msgs request c sid ∙ e)))
