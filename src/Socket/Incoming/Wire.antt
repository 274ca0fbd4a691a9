-- ===== src/Socket/Incoming/Wire.antt =====
-- The bytes of messages on their way from one socket to another.
use klibmsg.Base.{
  ℕ, zero, suc, ◌+◌, ◌<◌, ◌≡◌, refl, ap, ◌∙◌, List, [], ◌∷◌, ◌++◌, length, length-append, arith,
}
use klibmsg.Memory.{Memory, load, length-load, load_ext}
use klibmsg.Message.{NetMsg, Layout, sizeof_net_msg, data_len}
use klibmsg.Transfer.{header}
use klibmsg.Socket.Outgoing.{message_bytes, queue_bytes, Sendable}

-- The bytes `l` lie at `p` and behind.
abbrev pub Holds : Memory → ℕ → List ℕ → Type 0
Holds wire p l = load wire p (length l) ≡ l

pub Holds-append :
    (wire : Memory) (p : ℕ) (l l' : List ℕ)
    → Holds wire p (l ++ l')
    → Holds wire p l × Holds wire (p + length l) l'
unfolding load
Holds-append wire p [] l' h = let e : p + 0 ≡ p = omega arith in (refl, rw e h)
Holds-append wire p (b ∷ l) l' h =
    let (k, k') = Holds-append wire (p + 1) l l' (cc) in
    let e : p + suc (length l) ≡ p + 1 + length l = omega arith in (cc, rw e k')

-- Equal loads have equal bytes.
pub load_at :
    (m m' : Memory) (a a' n : ℕ)
    → load m a n ≡ load m' a' n
    → (x : ℕ) → x < n
    → m (a + x) ≡ m' (a' + x)
unfolding load
load_at m m' a a' zero e x h = absurd (omega arith)
load_at m m' a a' (suc n) e zero h =
    let z : a + 0 ≡ a = omega arith in let z' : a' + 0 ≡ a' = omega arith in rw (z, z') (cc)
load_at m m' a a' (suc n) e (suc x) h =
    let s : a + suc x ≡ a + 1 + x = omega arith in
    let s' : a' + suc x ≡ a' + 1 + x = omega arith in
    rw (s, s') (load_at m m' (a + 1) (a' + 1) n (cc) x (omega arith))

-- What is sent from `p` on.
abbrev pub from : Memory → ℕ → Memory
from wire p x = wire (p + x)

module _ (layout : Layout) (sender wire : Memory) (p : ℕ) (msg : NetMsg) (rest : List NetMsg)
    (can : Sendable msg) (h : Holds wire p (queue_bytes layout sender (msg ∷ rest))) where
  parts :
      Holds wire p (layout.encode msg)
      × Holds wire (p + sizeof_net_msg) (load sender msg.src (data_len msg))
      × Holds wire (p + (sizeof_net_msg + data_len msg)) (queue_bytes layout sender rest)
  unfolding queue_bytes message_bytes
  parts =
      let (k, later) = Holds-append wire p (message_bytes layout sender msg) _ h in
      let (k1, k2) = Holds-append wire p (layout.encode msg) _ k in
      let e = length-append (layout.encode msg) (load sender msg.src (data_len msg)) in
      (
        k1,
        rw (layout.length-encode msg) at k2,
        rw (e, layout.length-encode msg, length-load sender msg.src (data_len msg)) at later,
      )

  pub header-from : header layout (from wire p) ≡ msg
  unfolding header
  header-from =
      ap layout.decode (
        load_ext (from wire p) wire 0 p sizeof_net_msg (λ x q. ap wire (omega arith))
        ∙ rw (layout.length-encode msg) at (parts.0))
      ∙ layout.decode-encode msg can.0

  pub data-from :
      (x : ℕ) → x < data_len msg → from wire p (sizeof_net_msg + x) ≡ sender (msg.src + x)
  data-from x q =
      ap wire (omega arith)
      ∙ load_at wire sender (p + sizeof_net_msg) msg.src (data_len msg)
          (rw (length-load sender msg.src (data_len msg)) at (parts.1)) x q

  pub later-Holds :
      Holds wire (p + (sizeof_net_msg + data_len msg)) (queue_bytes layout sender rest)
  later-Holds = parts.2
