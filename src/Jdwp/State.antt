-- ===== src/Jdwp/State.antt =====
-- adb/jdwp_service.c: the processes and trackers, over the event loop of adb/fdevent.c.
use adb_wide.Base.{ℕ, Bool, Option, List, [], ◌∷◌, map, update}
use adb_wide.Base.Int.{ℤ}
use adb_wide.Fdevent.State.{Loop}
use adb_wide.Jdwp.Text.{jdwp_process_list_msg}

abbrev pub max_out_fds : ℕ
max_out_fds = 4

-- `JdwpProcess`. The bytes of in_buff up to in_len are `in_buff`; the array out_fds is a function. A
-- socket of -1 is `none`.
pub record Proc : Type 0 where
  pub pid : ℤ
  pub socket : Option ℕ
  pub fde : ℕ
  pub in_buff : List ℕ
  pub out_fds : ℕ → ℕ
  pub out_count : ℕ

-- The processes, by address, and `list`, the addresses in the ring _jdwp_list in its order: a node is
-- appended at the ring's end and taken out of it as in adb/fdevent.c. `trackers` is the ring
-- _jdwp_trackers_list, `sent` the packets given to the peers of sockets, the latest first, `hung_up`
-- the descriptors shut down, and `passed` the sockets and the descriptors that sendmsg has sent over them. Descriptors are closed in `loop.closed`.
pub record Jdwp : Type 0 where
  pub loop : Loop
  pub proc : ℕ → Proc
  pub list : List ℕ
  pub trackers : List ℕ
  pub need_update : ℕ → Bool
  pub sent : List (ℕ × List ℕ)
  pub hung_up : List ℕ
  pub passed : List (Option ℕ × ℕ)

abbrev pub put_proc : ℕ → Proc → Jdwp → Jdwp
put_proc p f s = record s { proc = update s.proc p f }

abbrev pub put_loop : Loop → Jdwp → Jdwp
put_loop l s = record s { loop = l }

abbrev pub adb_close : ℕ → Jdwp → Jdwp
adb_close fd s = put_loop (record s.loop { closed = fd ∷ s.loop.closed }) s

abbrev pub pids : Jdwp → List ℤ
pids s = map (λ p. (s.proc p).pid) s.list

-- A packet for each tracker, given to its peer.
abbrev pub tell : List ℕ → List ℕ → List (ℕ × List ℕ) → List (ℕ × List ℕ)
tell msg [] sent = sent
tell msg (t ∷ ts) sent = tell msg ts ((t, msg) ∷ sent)

-- sizeof buffer in jdwp_process_list_updated.
abbrev pub update_size : ℕ
update_size = 1024

unfoldable pub jdwp_process_list_updated : Jdwp → Jdwp
jdwp_process_list_updated s = record s {
  sent = tell (jdwp_process_list_msg update_size (pids s)) s.trackers s.sent;
}
