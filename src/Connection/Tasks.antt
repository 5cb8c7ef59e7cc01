-- ===== src/Connection/Tasks.antt =====
-- One round of each loop that src/connection.rs starts for a connection: `tx`, `send_ack` and
-- `check_timeout`. The channels and the result of `send_with` are arguments; what is sent is part
-- of the result.
use nkn_sdk_rust.Prelude.{
  ℕ, zero, suc, ◌+◌, ◌-◌, Bool, true, false, ◌&&◌, Option, none, some, List, [], ◌∷◌, Outcome, ok,
  panicked, ◌>>=◌, ltb, leb, ◌==◌, if◌then◌else◌, length, Bytes, Map, lookup, insert, remove,
  contains_key, nat_eq,
}
use nkn_sdk_rust.Prelude.Int.{pos}
use nkn_sdk_rust.Floats.{F64}
use nkn_sdk_rust.Sequence.{next_seq, less, cmp}
use nkn_sdk_rust.Connection.{Connection, NcpConfig, one, set_window_size}

-- A call of `send_with`.
pub record Send : Type 0 where
  pub from : Bytes
  pub to : Bytes
  pub buf : Bytes
  pub timeout : ℕ

-- What a round of `tx` does after `wait_for_send_window`.
pub record TxRound (F : F64) : Type 0 where
  pub conn : Connection F
  pub sends : List Send

module _ (F : F64) where
  open F use {of_nat, div}

  abbrev pub mark_sent : Connection F → ℕ → ℕ → Connection F
  mark_sent c seq now = record c {
    time_sent_seq =
        if contains_key seq c.time_sent_seq
        then c.time_sent_seq
        else insert seq now c.time_sent_seq;
    resent_seq = remove seq c.resent_seq;
  }

  -- A failed send halves the window and resets `seq` to 0.
  abbrev pub after_send : Connection F → ℕ → Bool → Connection F × ℕ
  after_send c seq true = (c, seq)
  after_send c seq false = (set_window_size F c (div c.window_size (of_nat 2)) (one F), 0)

  -- `send_with` is called with the local client id twice.
  unfoldable pub tx_round : Connection F → Map ℕ Bytes → ℕ → Bool → ℕ → Outcome (TxRound F)
  tx_round c send_window_data seq sent now = elim (lookup seq send_window_data) [
    | none ↦ panicked
    | some [] ↦ ok (record {
      conn = record c {
        time_sent_seq = remove seq c.time_sent_seq;
        resent_seq = remove seq c.resent_seq;
      };
      sends = [];
    })
    | some (b ∷ bs) ↦
        let (c', seq') = after_send c seq sent in
        ok (record {
          conn = mark_sent c' seq' now;
          sends =
              record { from = c.local_client_id; to = c.local_client_id; buf = b ∷ bs; timeout = 0 }
              ∷ [];
        })
  ]

-- `BinaryHeap::peek`: the greatest element by `cmp`, of a heap that is not empty.
unfoldable pub peek : ℕ → List ℕ → ℕ
peek best [] = best
peek best (x ∷ xs) = peek (elim (cmp best x) [ less ↦ x | _ ↦ best ]) xs

-- Takes one element out.
unfoldable pub take_out : ℕ → List ℕ → List ℕ
take_out v [] = []
take_out v (x ∷ xs) = if x == v then xs else x ∷ take_out v xs

-- `BinaryHeap::pop`
unfoldable pub pop : List ℕ → Option (ℕ × List ℕ)
pop [] = none
pop (x ∷ xs) = let v = peek x xs in some (v, take_out v (x ∷ xs))

-- `while peek == next_seq(start, count) { pop; count += 1 }`, with the size of the queue as fuel.
unfoldable pub extend_run : ℕ → ℕ → ℕ → List ℕ → ℕ × List ℕ
extend_run zero start count queue = (count, queue)
extend_run (suc fuel) start count [] = (count, [])
extend_run (suc fuel) start count (x ∷ xs) =
    let v = peek x xs in
    let rest = extend_run fuel start (count + 1) (take_out v (x ∷ xs)) in
    if v == next_seq start (pos count) then rest else (count, x ∷ xs)

pub record AckLists : Type 0 where
  pub start_seqs : List ℕ
  pub counts : List ℕ

abbrev pub add_run : ℕ → ℕ → AckLists → AckLists
add_run start count l = record { start_seqs = start ∷ l.start_seqs; counts = count ∷ l.counts }

-- The loop that empties the queue. `done` is the length of the lists so far. The queue shrinks in
-- every round, so its size and one is fuel enough; running out of it counts as a panic.
unfoldable pub collect_acks : ℕ → ℕ → ℕ → List ℕ → Outcome AckLists
collect_acks zero limit done queue = panicked
collect_acks (suc fuel) limit done [] =
    if leb limit done then ok (record { start_seqs = []; counts = [] }) else panicked
collect_acks (suc fuel) limit done (x ∷ xs) =
    let start = peek x xs in
    let run = extend_run (length (x ∷ xs)) start 1 (take_out start (x ∷ xs)) in
    do rest ← collect_acks fuel limit (done + 1) run.1; ok (add_run start run.0 rest)

abbrev pub all_ones : List ℕ → Bool
all_ones [] = true
all_ones (c ∷ cs) = c == 1 && all_ones cs

-- `omit_count`: counts that are all one are left out.
abbrev pub omit_counts : AckLists → AckLists
omit_counts l = record l { counts = if all_ones l.counts then [] else l.counts }

-- A round of `send_ack`: nothing for an empty queue, else the lists of the packet to send.
unfoldable pub send_ack_round : NcpConfig → List ℕ → Outcome (Option AckLists)
send_ack_round config [] = ok none
send_ack_round config (x ∷ xs) = do
  lists ← collect_acks (suc (length (x ∷ xs))) config.max_ask_seq_list_size 0 (x ∷ xs)
  ok (some (omit_counts lists))

-- How far a round of `check_timeout` got: what the resend channel holds, the marks, and the number
-- that finds the channel full. Where there is one, the task waits for room with the connection locked.
pub record Checked : Type 0 where
  pub chan : Option ℕ
  pub resent : Map ℕ (Unit {0})
  pub waiting : Option ℕ

-- Over the packets in flight: those sent before `threshold` and not resent yet go to the channel, which
-- has room for one, and are marked after that.
unfoldable pub check_timeouts : ℕ → Map ℕ ℕ → Option ℕ → Map ℕ (Unit {0}) → Checked
check_timeouts threshold [] chan resent = record { chan = chan; resent = resent; waiting = none }
check_timeouts threshold ((seq, t) ∷ in_flight) chan resent =
    elim (if contains_key seq resent then false else ltb t threshold) [
      | false ↦ check_timeouts threshold in_flight chan resent
      | true ↦ elim chan [
        | none ↦ check_timeouts threshold in_flight (some seq) (insert seq tt resent)
        | some full ↦ record { chan = some full; resent = resent; waiting = some seq }
      ]
    ]

pub record TimeoutRound (F : F64) : Type 0 where
  pub resend_chan : Option ℕ
  pub conn : Connection F
  pub waiting : Option ℕ

module _ (F : F64) where
  unfoldable pub check_timeout_round : Connection F → ℕ → Option ℕ → TimeoutRound F
  unfolding check_timeouts
  check_timeout_round c now chan =
      let r = check_timeouts (now - c.retransmission_timeout) c.time_sent_seq chan c.resent_seq in
      record {
        resend_chan = r.chan;
        conn = record c { resent_seq = r.resent };
        waiting = r.waiting;
      }
