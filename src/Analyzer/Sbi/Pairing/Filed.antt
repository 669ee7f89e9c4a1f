-- ===== src/Analyzer/Sbi/Pairing/Filed.antt =====
-- What is filed for a stream is its last message (5gcap/fivegcap/sbi.py, `pair_procedures`).
use g_pcap.Prelude.{
  ℕ, Bool, true, false, ◌&&◌, not, is, if◌then◌else◌, ◌≡◌, refl, ◌∙◌, Option, none, some, List, [],
  ◌∷◌, arith, inl, inr, Option-cases, ℕ_discrete,
}
use g_pcap.Prelude.Dict.{get, put, get-put}
use g_pcap.Prelude.Text.{truthy}
use g_pcap.Analyzer.Sbi.{SbiMsg, Conn, Conn-discrete, Direction, request, response}
use g_pcap.Analyzer.Sbi.Pairing.{
  SbiProcedure, Bucket, Buckets, streams_at, file, file_in, sort_out, sort_all, timed_out, answered,
}

unfoldable pub is_direction : Direction → Direction → Bool
is_direction request request = true
is_direction request response = false
is_direction response request = false
is_direction response response = true

abbrev on_conn : Option Conn → Conn → Bool
on_conn none c = false
on_conn (some d) c = is (Conn-discrete d c)

-- A readable message of the direction, on the stream of the connection.
unfoldable pub matches : Direction → Conn → ℕ → SbiMsg → Bool
unfolding is_direction
matches d c sid m =
    not (truthy m.unparsed)
    && on_conn m.conn c
    && is_direction m.direction d
    && is (ℕ_discrete m.stream_id sid)

-- The last of these messages in the capture.
unfoldable pub last_on : Direction → Conn → ℕ → List SbiMsg → Option SbiMsg
unfolding matches
last_on d c sid [] = none
last_on d c sid (m ∷ ms) = elim (last_on d c sid ms) [
  | some x ↦ some x
  | none ↦ if matches d c sid m then some m else none
]

-- What the request and, if there is one, the response make.
abbrev pub outcome_with : SbiMsg → Option SbiMsg → SbiProcedure
outcome_with req none = timed_out req
outcome_with req (some rsp) = answered req rsp

-- The procedure stands for a stream: its last request and its last response.
abbrev pub IsOfStream : List SbiMsg → SbiProcedure → Type 0
IsOfStream msgs p =
    (c : Conn) × (sid : ℕ) × (req : SbiMsg) × (last_on request c sid msgs ≡ some req)
    × (p ≡ outcome_with req (last_on response c sid msgs))

module _ (c : Conn) (sid : ℕ) where
  abbrev pub lookup : Bucket → Option SbiMsg
  lookup b = get ℕ_discrete sid (streams_at (get Conn-discrete c b))

  lookup-file :
      (d : Conn) (m : SbiMsg) (b : Bucket)
      → lookup (file d m b)
        ≡ (if is (Conn-discrete d c) && is (ℕ_discrete m.stream_id sid) then some m else lookup b)
  unfolding file
  lookup-file d m b =
      let inner = put ℕ_discrete m.stream_id m (streams_at (get Conn-discrete d b)) in
      let g = get-put Conn-discrete d c inner b in
      let h = get-put ℕ_discrete m.stream_id sid m (streams_at (get Conn-discrete d b)) in
      elim (Conn-discrete d c) [ yes e ↦ ground (arith, g, h) | no n ↦ ground (arith, g) ]

  abbrev pub bucket_of : Direction → Buckets → Bucket
  bucket_of request b = b.reqs
  bucket_of response b = b.rsps

  lookup-file_in :
      (k : Direction) (d : Direction) (e : Conn) (m : SbiMsg) (b : Buckets)
      → lookup (bucket_of k (file_in d e m b)) ≡ (
          if is_direction d k && is (Conn-discrete e c) && is (ℕ_discrete m.stream_id sid)
          then some m
          else lookup (bucket_of k b))
  unfolding is_direction
  lookup-file_in request request e m b = lookup-file e m b.reqs
  lookup-file_in request response e m b = refl
  lookup-file_in response request e m b = refl
  lookup-file_in response response e m b = lookup-file e m b.rsps

  lookup-sort_out :
      (k : Direction) (m : SbiMsg) (b : Buckets)
      → lookup (bucket_of k (sort_out m b))
        ≡ (if matches k c sid m then some m else lookup (bucket_of k b))
  unfolding sort_out matches
  lookup-sort_out k m b = elim (Option-cases m.conn) [
    | inl e ↦ ground arith
    | inr (d, e) ↦ ground (arith, lookup-file_in k m.direction d m b)
  ]

  pub lookup-sort_all :
      (k : Direction) (ms : List SbiMsg) (b : Buckets)
      → lookup (bucket_of k (sort_all ms b))
        ≡ elim (last_on k c sid ms) [ some x ↦ some x | none ↦ lookup (bucket_of k b) ]
  unfolding sort_all last_on
  lookup-sort_all k [] b = refl
  lookup-sort_all k (m ∷ ms) b = elim (Option-cases (last_on k c sid ms)) [
    | inl e ↦ lookup-sort_all k ms (sort_out m b) ∙ rw e (lookup-sort_out k m b ∙ ground arith)
    | inr (x, e) ↦ lookup-sort_all k ms (sort_out m b) ∙ rw e refl
  ]
