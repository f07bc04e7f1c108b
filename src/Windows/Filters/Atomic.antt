-- ===== src/Windows/Filters/Atomic.antt =====
-- platform/windows/wfp.rs: the filters are installed together or not at all. A session is read from
-- the calls: a transaction collects filters, and a commit makes them the session's.
use mathlib.Core.List.{append_assoc, append-nil}
use procwarden.Common.{
  ℕ, suc, ◌≡◌, lit, sym, ap, ◌∙◌, List, [], ◌∷◌, ◌++◌, ◌==◌, if◌then◌else◌, Result, ok, err, arith,
  subst,
}
use procwarden.Windows.Kernel.{
  System, Answer, fails, gives, Log, Win, pure, ◌>>=◌, ◌>>◌, call, tell, Done, Layer, BlockFilter,
  engine_open, engine_close, transaction_begin, transaction_commit, transaction_abort, filter_add,
}
use procwarden.Windows.Filters.{
  block_layers, block_filter, WfpStatusError, add_block_filter, status_result, or_abort, commit,
  add_filters, begun, install_filters,
}

-- The filters of a session, and those that its transaction has collected.
pub record Session : Type 0 where
  pub filters : List BlockFilter
  pub collected : List BlockFilter

abbrev empty_session : Session
empty_session = record { filters = []; collected = [] }

abbrev begin_collecting : Answer → Session → Session
begin_collecting (fails _) v = v
begin_collecting (gives _ _) v = record v { collected = [] }

abbrev collect : BlockFilter → Answer → Session → Session
collect filter (fails _) v = v
collect filter (gives _ _) v = record v { collected = v.collected ++ (filter ∷ []) }

abbrev commit_collected : Answer → Session → Session
commit_collected (fails _) v = v
commit_collected (gives _ _) v = record { filters = v.filters ++ v.collected; collected = [] }

abbrev when_same : ℕ → ℕ → Session → Session → Session
when_same e e' now before = if e == e' then now else before

abbrev opened_session : ℕ → Answer → Session → Session
opened_session e (fails _) v = v
opened_session e (gives e' _) v = when_same e e' empty_session v

-- The session of the engine `e`. A session that is closed has no filter: it is a dynamic one.
abbrev pub session : ℕ → Log → Session
session e [] = empty_session
session e ((engine_open, a) ∷ log) = opened_session e a (session e log)
session e ((engine_close e', a) ∷ log) = when_same e e' empty_session (session e log)
session e ((transaction_begin e', a) ∷ log) =
    when_same e e' (begin_collecting a (session e log)) (session e log)
session e ((filter_add e' filter, a) ∷ log) =
    when_same e e' (collect filter a (session e log)) (session e log)
session e ((transaction_commit e', a) ∷ log) =
    when_same e e' (commit_collected a (session e log)) (session e log)
session e ((transaction_abort e', a) ∷ log) =
    when_same e e' (record (session e log) { collected = [] }) (session e log)
session e (_ ∷ log) = session e log

same : (e : ℕ) (v w : Session) → when_same e e v w ≡ v
same e v w = ground arith

-- The block filters of some layers, numbered from `index` on.
abbrev pub block_filters : List Layer → ℕ → ℕ → ℕ → List BlockFilter
block_filters [] app_id sid index = []
block_filters (layer ∷ layers) app_id sid index =
    block_filter layer app_id sid index ∷ block_filters layers app_id sid (suc index)

-- Whether it ended well decides between the two lists.
abbrev pub Decides :
    List BlockFilter → List BlockFilter → ℕ → Result WfpStatusError Done × Log → Type 0
Decides all before e (ok _, log) = (session e log).filters ≡ all
Decides all before e (err _, log) = (session e log).filters ≡ before

module _ (s : System) (engine : ℕ) where
  abort_keeps :
      (error : WfpStatusError) (log : Log) (all before : List BlockFilter)
      → (session engine log).filters ≡ before
      → Decides all before engine ((tell s (transaction_abort engine) >> pure (err error)) log)
  unfolding ◌>>=◌ pure tell call
  abort_keeps error log all before h =
      ap (λ v. v.filters)
        (same engine (record (session engine log) { collected = [] }) (session engine log))
      ∙ h

  commit_answered :
      (a : Answer) (log : Log)
      → let v = session engine log in
        Decides (v.filters ++ v.collected) v.filters engine (
          (status_result s (lit "FwpmTransactionCommit0") a >>= or_abort s engine (pure (ok tt)))
            ((transaction_commit engine, a) ∷ log))
  unfolding ◌>>=◌ pure
  commit_answered (fails status) log =
      let v = session engine log in
      abort_keeps (record { context = lit "FwpmTransactionCommit0"; status = status })
        ((transaction_commit engine, fails status) ∷ log) (v.filters ++ v.collected) v.filters
        (ap (λ w. w.filters) (same engine v v))
  commit_answered (gives x y) log =
      ap (λ v. v.filters)
        (same engine (commit_collected (gives x y) (session engine log)) (session engine log))

  filter_answered :
      (filter : BlockFilter) (rest : Win (Result WfpStatusError Done)) (a : Answer) (log : Log)
      (all before sofar : List BlockFilter)
      → session engine log ≡ record { filters = before; collected = sofar }
      → ((log' : Log)
          → session engine log' ≡ record { filters = before; collected = sofar ++ (filter ∷ []) }
          → Decides all before engine (rest log'))
      → Decides all before engine (
          (status_result s (lit "FwpmFilterAdd0") a >>= or_abort s engine rest)
            ((filter_add engine filter, a) ∷ log))
  unfolding ◌>>=◌ pure
  filter_answered filter rest (fails status) log all before sofar h k =
      abort_keeps (record { context = lit "FwpmFilterAdd0"; status = status })
        ((filter_add engine filter, fails status) ∷ log) all before
        (ap (λ w. w.filters) (same engine (session engine log) (session engine log) ∙ h))
  filter_answered filter rest (gives x y) log all before sofar h k =
      k ((filter_add engine filter, gives x y) ∷ log)
        (same engine _ (session engine log) ∙ ap (collect filter (gives x y)) h)

  -- While the filters of a transaction are added.
  add_filters-Decides :
      (app_id sid : ℕ) (layers : List Layer) (index : ℕ) (log : Log)
      (before sofar : List BlockFilter)
      → session engine log ≡ record { filters = before; collected = sofar }
      → Decides
          (before ++ (sofar ++ block_filters layers app_id sid index))
          before
          engine
          (add_filters s engine app_id sid layers index log)
  unfolding add_filters add_block_filter commit ◌>>=◌ call
  add_filters-Decides app_id sid [] index log before sofar h =
      subst (λ all. Decides all before engine (commit s engine log))
        (ap (λ v. v.filters ++ v.collected) h ∙ ap (λ l. before ++ l) (sym (append-nil sofar)))
        (subst
          (λ l.
            Decides ((session engine log).filters ++ (session engine log).collected) l engine
              (commit s engine log))
          (ap (λ v. v.filters) h) (commit_answered (s.answer log (transaction_commit engine)) log))
  add_filters-Decides app_id sid (layer ∷ layers) index log before sofar h =
      let filter = block_filter layer app_id sid index in
      filter_answered filter (add_filters s engine app_id sid layers (suc index))
        (s.answer log (filter_add engine filter)) log
        (before ++ (sofar ++ block_filters (layer ∷ layers) app_id sid index)) before sofar h
        λ log' now.
          subst
            (λ l.
              Decides (before ++ l) before engine
                (add_filters s engine app_id sid layers (suc index) log'))
            (append_assoc sofar (filter ∷ []) (block_filters layers app_id sid (suc index)))
            (add_filters-Decides app_id sid layers (suc index) log' before (sofar ++ (filter ∷ []))
              now)

  begun-Decides :
      (app_id sid : ℕ) (a : Answer) (log : Log)
      → let before = (session engine log).filters in
        Decides
          (before ++ block_filters block_layers app_id sid 0)
          before
          engine
          (begun s engine app_id sid a ((transaction_begin engine, a) ∷ log))
  unfolding pure
  begun-Decides app_id sid (fails status) log =
      ap (λ w. w.filters) (same engine (session engine log) (session engine log))
  begun-Decides app_id sid (gives x y) log =
      add_filters-Decides app_id sid block_layers 0 _ (session engine log).filters []
        (same engine (begin_collecting (gives x y) (session engine log)) (session engine log))

  -- Installing is atomic, whatever the system answers to each call: if it succeeds, the six block
  -- filters for the executable and the SID, one for each layer, have joined the session's filters;
  -- if it fails at any point, the session's filters are those that it had before.
  pub install_filters-atomic :
      (app_id sid : ℕ) (log : Log)
      → let before = (session engine log).filters in
        Decides
          (before ++ block_filters block_layers app_id sid 0)
          before
          engine
          (install_filters s engine app_id sid log)
  unfolding install_filters ◌>>=◌ call
  install_filters-atomic app_id sid log =
      begun-Decides app_id sid (s.answer log (transaction_begin engine)) log
