-- ===== src/Mtc/State.antt =====
-- The tracker process of src/start_tracker.c: its globals, the shared memory that it maps, the packets
-- that it has sent and the lines of its log.
use mem_exchange.Prelude.{
  ℕ, ◌≡◌, ◌+◌, ◌-◌, ◌*◌, Bool, true, false, Option, none, some, List, [], ◌∷◌, ◌++◌, take, leb,
  ◌==◌, ◌&&◌, ℤ, pos, if◌then◌else◌,
}
use mem_exchange.Tracker.State.{SockaddrIn, Shm, M}

-- The conversions between text and numbers that the process takes from the C library, where the
-- `double`s are those of the machine: `atof`; `atoi`; the `sscanf` of a response, with the identifier,
-- the score and the waiting time when all four fields are there; `%f`; `,%.5f,%d\n`; and `%d`.
pub record Text (D : Type 0) : Type 0 where
  pub atof : List ℕ → D
  pub atoi : List ℕ → ℤ
  pub scan_response : List ℕ → Option (ℕ × D × ℤ)
  pub show_score : D → List ℕ
  pub show_response : D → ℤ → List ℕ
  pub show_port : ℤ → List ℕ

-- a datagram's other end: its socket address, and the address in dotted decimal
pub record Peer : Type 0 where
  pub address : SockaddrIn
  pub dotted : List ℕ

-- Where the receiver stands: in `recvfrom`, in the loop that waits for the local candidate, or in the
-- loop that waits for the listener's port.
pub data Phase : Type 0 where
  listening : Phase
  awaiting_min : Peer → ℕ → Phase
  awaiting_port : Peer → Phase

pub record Node (D : Type 0) : Type 0 where
  pub shm : Shm D
  pub mc_id : ℕ
  pub client : Bool
  pub waiting : Bool
  pub phase : Phase
  pub sent : List (Peer × List ℕ)
  pub log : List ℕ

-- How a piece of a thread ends: it goes on, it blocks on the semaphore, or its behaviour is undefined.
pub data Run (A : Type 0) : Type 0 where
  done : A → Run A
  blocked undefined : Run A

abbrev pub N : Type 0 → Type 0 → Type 0
N D A = Node D → Run (A × Node D)

infixl 5 ◌>>=◌ ◌>>◌
abbrev pub ◌>>=◌ : {D A B : Type 0} → N D A → (A → N D B) → N D B
◌>>=◌ m f n = elim (m n) [ done (a, n') ↦ f a n' | blocked ↦ blocked | undefined ↦ undefined ]

abbrev pub ◌>>◌ : {D B : Type 0} → N D (Unit {0}) → N D B → N D B
◌>>◌ m k n = elim (m n) [ done (_, n') ↦ k n' | blocked ↦ blocked | undefined ↦ undefined ]

-- the process after a piece that went on, and as it was otherwise
abbrev pub after : {D A : Type 0} → Run (A × Node D) → Node D → Node D
after r n = elim r [ done (_, n') ↦ n' | _ ↦ n ]

abbrev pub skip : {D : Type 0} → N D (Unit {0})
skip n = done (tt, n)

-- a function of src/shm_malloc.c, called on the shared memory
abbrev pub shared : {D A : Type 0} → M D A → N D A
shared m n = elim (m n.shm) [ none ↦ blocked | some (a, s) ↦ done (a, record n { shm = s }) ]

-- a packet goes out: the bytes that `sendto` is given
abbrev pub send : {D : Type 0} → Peer → List ℕ → N D (Unit {0})
send peer bytes n = done (tt, record n { sent = (peer, bytes) ∷ n.sent })

abbrev pub goto : {D : Type 0} → Phase → N D (Unit {0})
goto p n = done (tt, record n { phase = p })

abbrev pub set_waiting : {D : Type 0} → Bool → N D (Unit {0})
set_waiting b n = done (tt, record n { waiting = b })

abbrev pub set_client : {D : Type 0} → Bool → N D (Unit {0})
set_client b n = done (tt, record n { client = b })

-- The buffers that hold a message are passed with the size of a pointer, 8 bytes, whatever they hold;
-- `heap` is what stands behind a shorter one in memory.
abbrev pub pointer_bytes : List ℕ → List ℕ → List ℕ
pointer_bytes heap buffer = take 8 (buffer ++ heap)

-- all bytes but `c`
unfoldable pub remove_char : ℕ → List ℕ → List ℕ
remove_char c [] = []
remove_char c (b ∷ bs) = let rest = remove_char c bs in if b == c then rest else b ∷ rest

-- `atoll`, on the digits that `remove_char` leaves
abbrev pub digits_from : ℕ → List ℕ → ℕ
digits_from acc [] = acc
digits_from acc (b ∷ bs) = elim (leb b'0' b && leb b b'9') [
  | true ↦ digits_from (acc * 10 + (b - b'0')) bs
  | false ↦ acc
]

unfoldable pub sender_id : Peer → ℤ
unfolding remove_char
sender_id p = pos (digits_from 0 (remove_char b'.' p.dotted))

-- A shared call that returns is followed by the rest, on the memory that it leaves.
module _ {D A B : Type 0} (m : M D A) (n : Node D) {a : A} {s : Shm D}
    (run : m n.shm ≡ some (a, s)) where
  pub shared->>= : (f : A → N D B) → (shared m >>= f) n ≡ f a (record n { shm = s })
  shared->>= f = rw (run, ◌>>=◌, shared)

module _ {D B : Type 0} (m : M D (Unit {0})) (n : Node D) {s : Shm D}
    (run : m n.shm ≡ some (tt, s)) where
  pub shared->> : (k : N D B) → (shared m >> k) n ≡ k (record n { shm = s })
  shared->> k = rw (run, ◌>>◌, shared)
