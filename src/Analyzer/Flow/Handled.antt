-- ===== src/Analyzer/Flow/Handled.antt =====
-- What one message does to a flow's procedures and to the starts (5gcap/fivegcap/flow.py).
use g_pcap.Prelude.{
  ℕ, String, ◌≡◌, refl, Option, none, some, List, [], ◌∷◌, any, All, All-append, Bool-cases,
  Option-cases, ◌⊎◌, inl, inr,
}
use g_pcap.Prelude.Dict.{get, put, remove, All-put, All-remove, All-get}
use g_pcap.Analyzer.Flow.{
  ProcKey-discrete, Procedure, Starts, Handled, Kind, Outcome, Signal, no_signal, starts_kind,
  ends_kind, nas_start, nas_end, by_nas, nas_signal, complete_first, complete_ngap, ngap_start,
  list_or_empty, by_ngap, ngap_signal, started, ended, of_kind,
}

-- The procedure was started by a message whose name starts its kind.
pub record IsStarted (signal : String → Signal) (kind : Kind) (p : Procedure) : Type 0 where
  pub same_kind : p.kind ≡ kind
  pub starts : signal p.start_msg ≡ starts_kind kind

-- The procedure's first message starts its kind and its last one ends that kind with the
-- procedure's outcome, by the names of one level.
pub record IsMatched (signal : String → Signal) (p : Procedure) : Type 0 where
  pub ts : ℕ
  pub msg : String
  pub end_time : p.end_ts ≡ some ts
  pub end_message : p.end_msg ≡ some msg
  pub starts : signal p.start_msg ≡ starts_kind p.kind
  pub ends : signal msg ≡ ends_kind p.kind p.outcome

-- Either both messages are NAS messages, or both are NGAP messages.
abbrev pub IsClosed : Procedure → Type 0
IsClosed p = IsMatched nas_signal p ⊎ IsMatched ngap_signal p

pub record AreStarts (s : Starts) : Type 0 where
  pub nas_level : All (λ e. IsStarted nas_signal e.0.1 e.1) s.open_procs
  pub ngap_level : All (λ e. All (IsStarted ngap_signal e.0.1) e.1) s.ngap_starts

pub record IsHandled (h : Handled) : Type 0 where
  pub closed : All IsClosed h.0.procedures
  pub starts : AreStarts h.1

ended-IsMatched :
    (signal : String → Signal) (kind : Kind) (o : Outcome) (ts : ℕ) (n : String) (p : Procedure)
    → IsStarted signal kind p
    → signal n ≡ ends_kind kind o
    → IsMatched signal (ended ts n o p)
unfolding ended
ended-IsMatched signal kind o ts n p h e = record {
  ts = ts;
  msg = n;
  end_time = refl;
  end_message = refl;
  starts = rw h.same_kind h.starts;
  ends = rw h.same_kind e;
}

module _ (ts : ℕ) (n : String) (h : Handled) (good : IsHandled h) where
  nas_start-IsHandled :
      (kind : Kind) → nas_signal n ≡ starts_kind kind → IsHandled (nas_start kind ts n h)
  unfolding nas_start started
  nas_start-IsHandled kind e = record {
    closed = good.closed;
    starts = record {
      nas_level =
          All-put ProcKey-discrete (λ e. IsStarted nas_signal e.0.1 e.1) (h.0.flow_id, kind)
            (started kind ts n) h.1.open_procs (record { same_kind = refl; starts = e })
            good.starts.nas_level;
      ngap_level = good.starts.ngap_level;
    };
  }

  nas_end-IsHandled :
      (kind : Kind) (o : Outcome)
      → nas_signal n ≡ ends_kind kind o
      → IsHandled (nas_end kind o ts n h)
  unfolding nas_end
  nas_end-IsHandled kind o e =
      elim (Option-cases (get ProcKey-discrete (h.0.flow_id, kind) h.1.open_procs)) [
        | inl none_open ↦ rw (none_open, nas_end) good
        | inr (p, found) ↦
            let s =
              All-get ProcKey-discrete (λ e. IsStarted nas_signal e.0.1 e.1) (h.0.flow_id, kind) p
                h.1.open_procs good.starts.nas_level found in
            rw (found, nas_end)
              (record {
                closed =
                    All-append IsClosed h.0.procedures _ good.closed
                      (inl (ended-IsMatched nas_signal kind o ts n p s e), tt);
                starts = record {
                  nas_level =
                      All-remove ProcKey-discrete (λ e. IsStarted nas_signal e.0.1 e.1)
                        (λ e. IsStarted nas_signal e.0.1 e.1) (h.0.flow_id, kind) h.1.open_procs
                        (λ j v other q. q) good.starts.nas_level;
                  ngap_level = good.starts.ngap_level;
                };
              })
      ]

  pub by_nas-IsHandled : (r : Signal) → nas_signal n ≡ r → IsHandled (by_nas r ts n h)
  unfolding by_nas
  by_nas-IsHandled no_signal e = good
  by_nas-IsHandled (starts_kind k) e = nas_start-IsHandled k e
  by_nas-IsHandled (ends_kind k o) e = nas_end-IsHandled k o e

  ngap_put :
      (kind : Kind) (ps : List Procedure)
      → All (IsStarted ngap_signal kind) ps
      → All
          (λ e. All (IsStarted ngap_signal e.0.1) e.1)
          (put ProcKey-discrete (h.0.flow_id, kind) ps h.1.ngap_starts)
  ngap_put kind ps a =
      All-put ProcKey-discrete (λ e. All (IsStarted ngap_signal e.0.1) e.1) (h.0.flow_id, kind) ps
        h.1.ngap_starts a good.starts.ngap_level

  ngap_found :
      (kind : Kind) (ps : List Procedure)
      → get ProcKey-discrete (h.0.flow_id, kind) h.1.ngap_starts ≡ some ps
      → All (IsStarted ngap_signal kind) ps
  ngap_found kind ps found =
      All-get ProcKey-discrete (λ e. All (IsStarted ngap_signal e.0.1) e.1) (h.0.flow_id, kind) ps
        h.1.ngap_starts good.starts.ngap_level found

  ngap_before :
      (kind : Kind)
      → All
          (IsStarted ngap_signal kind)
          (list_or_empty (get ProcKey-discrete (h.0.flow_id, kind) h.1.ngap_starts))
  ngap_before kind =
      elim (Option-cases (get ProcKey-discrete (h.0.flow_id, kind) h.1.ngap_starts)) [
        | inl e ↦ rw e tt
        | inr (ps, e) ↦ rw e (ngap_found kind ps e)
      ]

  ngap_start-IsHandled :
      (kind : Kind) → ngap_signal n ≡ starts_kind kind → IsHandled (ngap_start kind ts n h)
  unfolding ngap_start started
  ngap_start-IsHandled kind e = record {
    closed = good.closed;
    starts = record {
      nas_level = good.starts.nas_level;
      ngap_level = ngap_put kind _ (
          All-append (IsStarted ngap_signal kind) _ _ (ngap_before kind)
            (record { same_kind = refl; starts = e }, tt));
    };
  }

  ngap_removed :
      (kind : Kind)
      → All
          (λ e. All (IsStarted ngap_signal e.0.1) e.1)
          (remove ProcKey-discrete (h.0.flow_id, kind) h.1.ngap_starts)
  ngap_removed kind =
      All-remove ProcKey-discrete (λ e. All (IsStarted ngap_signal e.0.1) e.1)
        (λ e. All (IsStarted ngap_signal e.0.1) e.1) (h.0.flow_id, kind) h.1.ngap_starts
        (λ j v other q. q) good.starts.ngap_level

  complete_first-IsHandled :
      (kind : Kind) (o : Outcome) (ps : Option (List Procedure))
      → ngap_signal n ≡ ends_kind kind o
      → get ProcKey-discrete (h.0.flow_id, kind) h.1.ngap_starts ≡ ps
      → IsHandled (complete_first kind o ts n ps h)
  unfolding complete_first
  complete_first-IsHandled kind o none e found = good
  complete_first-IsHandled kind o (some []) e found = good
  complete_first-IsHandled kind o (some (p ∷ ps)) e found =
      let a = ngap_found kind (p ∷ ps) found in
      record {
        closed =
            All-append IsClosed h.0.procedures _ good.closed
              (inr (ended-IsMatched ngap_signal kind o ts n p a.0 e), tt);
        starts = record { nas_level = good.starts.nas_level; ngap_level = ngap_put kind ps a.1 };
      }

  complete_ngap-IsHandled :
      (kind : Kind) (o : Outcome)
      → ngap_signal n ≡ ends_kind kind o
      → IsHandled (complete_ngap kind o ts n h)
  unfolding complete_ngap
  complete_ngap-IsHandled kind o e = elim (Bool-cases (any (of_kind kind) h.0.procedures)) [
    | inl there ↦
        rw (there, complete_ngap)
          (record {
            closed = good.closed;
            starts = record { nas_level = good.starts.nas_level; ngap_level = ngap_removed kind };
          })
    | inr absent ↦
        rw (absent, complete_ngap)
          (complete_first-IsHandled kind o
            (get ProcKey-discrete (h.0.flow_id, kind) h.1.ngap_starts) e refl)
  ]

  pub by_ngap-IsHandled : (r : Signal) → ngap_signal n ≡ r → IsHandled (by_ngap r ts n h)
  unfolding by_ngap
  by_ngap-IsHandled no_signal e = good
  by_ngap-IsHandled (starts_kind k) e = ngap_start-IsHandled k e
  by_ngap-IsHandled (ends_kind k o) e = complete_ngap-IsHandled k o e
