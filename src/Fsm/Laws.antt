-- ===== src/Fsm/Laws.antt =====
-- What NetFsm::Raise leaves of a socket (fsm.cpp).
use klibmsg.Base.{ℕ, ◌≡◌, refl, ℤ, Bool-cases, inl, inr}
use klibmsg.Net.{Sock, EventKind, SrcPtr}
use klibmsg.Fsm.{raised}

-- Two states of a socket that differ at most in its events.
pub record SameButEvents (s s' : Sock) : Type 0 where
  pub state : s'.state ≡ s.state
  pub fsm_state : s'.fsm_state ≡ s.fsm_state
  pub fd : s'.s ≡ s.s
  pub busy : s'.is_out_buf_busy ≡ s.is_out_buf_busy
  pub queue : s'.msg_buffer_queue ≡ s.msg_buffer_queue
  pub in_buf : s'.in_buf ≡ s.in_buf
  pub in_offset : s'.in_offset ≡ s.in_offset
  pub task_queued : s'.task_queued ≡ s.task_queued

pub raised-SameButEvents :
    (i : ℕ) (k : EventKind) (type : ℤ) (p : SrcPtr) (s : Sock)
    → SameButEvents s (raised i k type p s)
raised-SameButEvents i k type p s = elim (Bool-cases (s.event k).queued) [
  | inl old ↦ rw old (record {
    state = refl;
    fsm_state = refl;
    fd = refl;
    busy = refl;
    queue = refl;
    in_buf = refl;
    in_offset = refl;
    task_queued = refl;
  })
  | inr new ↦ rw new (record {
    state = refl;
    fsm_state = refl;
    fd = refl;
    busy = refl;
    queue = refl;
    in_buf = refl;
    in_offset = refl;
    task_queued = refl;
  })
]
