-- ===== src/Engine/Polling.antt =====
-- internal/engine/poll.go: reading a peer, queueing what it holds, and moving its mark.
use crm_bisync.Prelude.{
  ℕ, zero, suc, ◌+◌, Bool, true, false, not, Option, none, some, List, [], ◌∷◌, ◌++◌, Bytes, codes,
  if◌then◌else◌,
}
use crm_bisync.Prelude.Int.{ℤ, pos}
use crm_bisync.Prelude.Sorting.{any_b}
use crm_bisync.Prelude.Decimal.{itoa}
use crm_bisync.Prelude.Dict.{Dict}
use crm_bisync.Prelude.Result.{Result, ok, err}
use crm_bisync.Model.{Value, Record, ChangeEvent}
use crm_bisync.Connector.{Failure, other, wrapped, Page, has_more}
use crm_bisync.Mapping.Directions.{writes_to}
use crm_bisync.Mapping.Fields.{to_canonical, Problem}
use crm_bisync.Watermark.{PeerConfig, highest, since, advance}
use crm_bisync.Identity
use crm_bisync.Engine.Queue.{Task, WorkQueue, has_finished}
use crm_bisync.Engine.Parts.{
  pure, fail, ◌>>=◌, ◌>>◌, Setting, State, Method, Peer, Sync, other_peer, on_store, on_world, now,
  attempt, got,
}
use crm_bisync.Engine.Tasks.{Worker, submit, drain}

pub record PollResult : Type 0 where
  pub sync : Sync
  pub peer : Peer
  pub highest : ℕ
  pub events : List ChangeEvent
  pub tasks : List Task

abbrev pub max_pages : ℕ
max_pages = 10000

abbrev pub event_of : Peer → Sync → ℕ → Record → ChangeEvent
event_of p s at rec = record {
  source = p.name;
  kind = s.kind;
  remote_id = rec.remote_id;
  delivery_id = [];
  observed_at = at;
  deleted = false;
  body = some rec;
}

abbrev pub deletion_event : Peer → Sync → ℕ → Bytes → ChangeEvent
deletion_event p s at id = record {
  source = p.name;
  kind = s.kind;
  remote_id = id;
  delivery_id = [];
  observed_at = at;
  deleted = true;
  body = none;
}

unfoldable pub deletion_events : Peer → Sync → ℕ → List Bytes → List ChangeEvent
deletion_events p s at [] = []
deletion_events p s at (id ∷ ids) = deletion_event p s at id ∷ deletion_events p s at ids

abbrev pub with_record : ℕ → Record → PollResult → PollResult
with_record at rec r = record r {
  highest = highest (r.highest ∷ rec.updated_at ∷ []);
  events = r.events ++ event_of r.peer r.sync at rec ∷ [];
}

abbrev pub with_deletions : ℕ → List Bytes → PollResult → PollResult
with_deletions at ids r = record r { events = r.events ++ deletion_events r.peer r.sync at ids }

abbrev pub start_at : Option ℤ → ℤ
start_at none = pos 0
start_at (some t) = t

-- `readablePeers`
unfoldable pub readable : Sync → Peer → List Peer
readable s p = if writes_to s.mapper.direction (other_peer s p).side then p ∷ [] else []

unfoldable pub readable_peers : Sync → List Peer
unfolding readable
readable_peers s = readable s s.left_peer ++ readable s s.right_peer

module _ (E : Setting) (marks : Dict PeerConfig) where
  -- A record is indexed on sight, if it can be read.
  unfoldable pub index_seen :
      PollResult → Record → Result (List Problem) (Dict Value) → Method E (Unit {0})
  index_seen r rec (err _) = pure E tt
  index_seen r rec (ok values) = do
    at ← now E
    on_store E (
        Identity.index E.formats E.store r.sync.identity at
          (record { connector = r.peer.name; kind = r.sync.kind; remote_id = rec.remote_id })
          values)

  unfoldable pub see_records : ℕ → List Record → PollResult → Method E PollResult
  unfolding index_seen
  see_records at [] r = pure E r
  see_records at (rec ∷ recs) r = do
    index_seen r rec (to_canonical E.letters r.sync.mapper r.peer.side rec)
    see_records at recs (with_record at rec r)

  abbrev pub polling : PollResult → Bytes
  polling r = codes "polling " ++ r.peer.name ++ codes " for " ++ r.sync.kind

  abbrev pub rewrap : {A : Type 0} → Bytes → Result Failure A → Result Failure A
  rewrap text (ok a) = ok a
  rewrap text (err f) = err (wrapped text f)

  unfoldable pub read_page : PollResult → ℤ → Bytes → Method E Page
  read_page r from cursor = do
    on_world E (E.peers.wait r.peer.name)
    page ← attempt E (on_world E (E.peers.list_changed r.peer.name r.sync.kind from cursor))
    λ e. (let (res, e') = got E r.peer page e in (rewrap (polling r) res, e'))

  unfoldable pub see_page : ℕ → Page → PollResult → Method E PollResult
  unfolding see_records
  see_page at page r = do
    seen ← see_records at page.records r
    pure E (with_deletions at page.deleted seen)

  -- The loop over the pages, with the pages that are left
  unfoldable pub read_pages : ℕ → ℕ → ℤ → Bytes → PollResult → Method E PollResult
  unfolding read_page see_page
  read_pages zero at from cursor r = fail E (
      other (
        polling r ++ codes ": paging did not terminate after " ++ itoa max_pages ++ codes " pages"))
  read_pages (suc left) at from cursor r = do
    page ← read_page r from cursor
    seen ← see_page at page r
    elim (has_more page) [ false ↦ pure E seen | true ↦ read_pages left at from page.cursor seen ]

  -- `Poll`: the page after number `max_pages` is the last that the loop goes on from.
  unfoldable pub poll : Sync → Peer → Method E PollResult
  unfolding read_pages
  poll s p = do
    t ← now E
    from ← on_store E (since E.store marks t p.name s.kind)
    at ← now E
    read_pages (max_pages + 2) at (start_at from) []
        (record { sync = s; peer = p; highest = 0; events = []; tasks = [] })

-- The peers of the syncs, in order
unfoldable pub readable_pairs : Dict Sync → List (Sync × Peer)
readable_pairs [] = []
readable_pairs ((_, s) ∷ ss) = paired s (readable_peers s) ++ readable_pairs ss
  where
    paired : Sync → List Peer → List (Sync × Peer)
    paired s [] = []
    paired s (p ∷ ps) = (s, p) ∷ paired s ps

-- `PollResult.Submit`: the tasks and the state after them
unfoldable pub submit_events :
    (E : Setting) → Bytes → List ChangeEvent → Worker E → List Task × Worker E
unfolding submit
submit_events E sync [] w = ([], w)
submit_events E sync (ev ∷ evs) w =
    let (t, w') = submit E sync ev w in let (ts, w'') = submit_events E sync evs w' in (t ∷ ts, w'')

unfoldable pub submit_results :
    (E : Setting) → List PollResult → Worker E → List PollResult × Worker E
unfolding submit_events
submit_results E [] w = ([], w)
submit_results E (r ∷ rs) w =
    let (ts, w') = submit_events E r.sync.name r.events w in
    let (rs', w'') = submit_results E rs w' in (record r { tasks = r.tasks ++ ts } ∷ rs', w'')

module _ (E : Setting) (marks : Dict PeerConfig) where
  -- What the polls gave: the results, and the failures
  abbrev pub Polled : Type 0
  Polled = List PollResult × List Failure

  abbrev pub add_polled : Result Failure PollResult → Polled → Polled
  add_polled (ok r) (rs, fs) = (r ∷ rs, fs)
  add_polled (err f) (rs, fs) = (rs, f ∷ fs)

  -- One peer that cannot be read does not stop the others.
  unfoldable pub poll_each : List (Sync × Peer) → Method E Polled
  unfolding poll
  poll_each [] = pure E ([], [])
  poll_each ((s, p) ∷ rest) = do
    r ← attempt E (poll E marks s p)
    others ← poll_each rest
    pure E (add_polled r others)

  -- What `poll_each` leaves, with its results submitted
  unfoldable pub submit_polled : Result Failure Polled × State E → Worker E → Polled × Worker E
  unfolding submit_results
  submit_polled (ok (rs, fs), e) w =
      let (rs', w') = submit_results E rs (record w { engine = e }) in ((rs', fs), w')
  submit_polled (err f, e) w = (([], f ∷ []), record w { engine = e })

  -- `PollAll`: everything is read before anything is queued.
  unfoldable pub poll_all : Worker E → Polled × Worker E
  unfolding poll_each submit_polled readable_pairs
  poll_all w = submit_polled (poll_each (readable_pairs E.syncs) w.engine) w

  -- Whether the tasks are all done
  abbrev pub all_finished : List Task → WorkQueue → Bool
  all_finished ts q = not (any_b (λ t. not (has_finished t q)) ts)

  -- What a commit comes to: the mark has moved or not, or the wait is for a task that is not done.
  pub data Committed : Type 0 where
    returned : Result Failure (Unit {0}) → Committed
    waiting : Committed

  unfoldable pub advance_mark : PollResult → Method E (Unit {0})
  advance_mark r = do at ← now E; on_store E (advance E.store at r.peer.name r.sync.kind r.highest)

  -- `Commit`. The loop takes the tasks in order, and a context that has ended is its error only
  -- where a task is not done.
  unfoldable pub commit : PollResult → Worker E → Committed × Worker E
  unfolding advance_mark
  commit r w =
      if all_finished r.tasks w.queue
      then (let (res, e) = advance_mark r w.engine in (returned res, record w { engine = e }))
      else if E.peers.cancelled w.engine.world
      then (returned (err (other (codes "context canceled"))), w)
      else (waiting, w)

  -- A commit that waits is where the cycle stays.
  abbrev pub unless_waiting :
      Committed → Worker E → List Committed × Worker E → List Committed × Worker E
  unless_waiting waiting w rest = (waiting ∷ [], w)
  unless_waiting c w (cs, w') = (c ∷ cs, w')

  unfoldable pub commit_all : List PollResult → Worker E → List Committed × Worker E
  unfolding commit
  commit_all [] w = ([], w)
  commit_all (r ∷ rs) w = let (c, w') = commit r w in unless_waiting c w' (commit_all rs w')

  -- `Cycle`, on the fuel of its `Drain`
  unfoldable pub cycle : ℕ → Worker E → Option (List Committed × List Failure × Worker E)
  unfolding poll_all commit_all
  cycle fuel w =
      let (polled, w') = poll_all w in
      elim (drain E fuel w') [
        | none ↦ none
        | some w'' ↦ (let (cs, done) = commit_all polled.0 w'' in some (cs, polled.1, done))
      ]
