-- ===== src/Session/Protocol.antt =====
-- The hand-off between one traced thread (CopyToSharedMemory of src/pintool/bullettime.cpp) and its
-- listener (`Listen` of src/consumer/consumer.cpp), as steps that may come in any order that the two
-- sockets allow. A message is the block that it announces.
pub mod Exclusion
pub mod Progress
pub mod Losses
use bullet_time.Prelude.{ℕ, suc, ◌+◌, ◌≡◌, Bool, true, false, List, [], ◌∷◌, ◌++◌}

module _ (Block : Type 0) where
  -- Where the thread is: it fills its buffer, or hands over a full one. In `copying` and `sending` it
  -- has the ready signal, or has found the listener's end closed.
  pub data Tool : Type 0 where
    filling ended : Tool
    waiting copying sending : Block → Tool

  -- Where the listener is. It has left its loop with the last message dealt with in `finished`, and
  -- with a message that may be lost in `abandoned`; in `repeating` it works on the old message again.
  pub data Listener : Type 0 where
    top receiving repeating finished abandoned : Listener
    working : Block → Listener

  -- Out of the loop, after which ReceiverThread closes the ready socket and then the size socket.
  abbrev pub has_left : Listener → Bool
  has_left finished = true
  has_left abandoned = true
  has_left _ = false

  pub data Closing : Type 0 where
    opened ready_closed closed : Closing

  abbrev pub is_opened : Closing → Bool
  is_opened opened = true
  is_opened _ = false

  abbrev pub is_closed : Closing → Bool
  is_closed closed = true
  is_closed _ = false

  -- `ready` and `sizes` are what the sockets hold, and `block` is what the shared memory does. `sent`
  -- and `stored` record the messages that went out and the blocks that were processed, and `failed`
  -- that a message could not be sent.
  pub record Link : Type 0 where
    pub tool : Tool
    pub listener : Listener
    pub closing : Closing
    pub ready : ℕ
    pub sizes : List Block
    pub block : Block
    pub stop : Bool
    pub failed : Bool
    pub sent : List Block
    pub stored : List Block

  abbrev pub initial : Block → Link
  initial b = record {
    tool = filling;
    listener = top;
    closing = opened;
    ready = 0;
    sizes = [];
    block = b;
    stop = false;
    failed = false;
    sent = [];
    stored = [];
  }

  pub data Step : Link → Link → Type 0 where
    -- The thread.
    full : (s : Link) (b : Block) → s.tool ≡ filling → Step s (record s { tool = waiting b })
    read_ready :
        (s : Link) (b : Block) (n : ℕ)
        → s.tool ≡ waiting b
        → s.ready ≡ suc n
        → Step s (record s { tool = copying b; ready = n })
    read_failed : (s : Link) (b : Block) → s.tool ≡ waiting b → Step s (record s { tool = filling })
    -- `read` returns 0, which is not -1.
    read_closed :
        (s : Link) (b : Block)
        → s.tool ≡ waiting b
        → s.ready ≡ 0
        → is_opened s.closing ≡ false
        → Step s (record s { tool = copying b })
    copy :
        (s : Link) (b : Block)
        → s.tool ≡ copying b
        → Step s (record s { tool = sending b; block = b })
    send :
        (s : Link) (b : Block)
        → s.tool ≡ sending b
        → is_closed s.closing ≡ false
        → Step s (record s { tool = filling; sizes = s.sizes ++ b ∷ []; sent = s.sent ++ b ∷ [] })
    send_failed :
        (s : Link) (b : Block)
        → s.tool ≡ sending b
        → Step s (record s { tool = filling; failed = true })
    -- The signal SIGPIPE, where the program does not ignore it.
    killed :
        (s : Link) (b : Block)
        → s.tool ≡ sending b
        → is_closed s.closing ≡ true
        → Step s (record s { tool = ended })
    end : (s : Link) → s.tool ≡ filling → Step s (record s { tool = ended })
    -- The listener.
    see_stop :
        (s : Link) → s.listener ≡ top → s.stop ≡ true → Step s (record s { listener = finished })
    send_ready :
        (s : Link)
        → s.listener ≡ top
        → s.stop ≡ false
        → Step s (record s { listener = receiving; ready = suc s.ready })
    see_closed :
        (s : Link) → s.listener ≡ top → s.tool ≡ ended → Step s (record s { listener = finished })
    ready_failed : (s : Link) → s.listener ≡ top → Step s (record s { listener = abandoned })
    receive :
        (s : Link) (b : Block) (rest : List Block)
        → s.listener ≡ receiving
        → s.sizes ≡ b ∷ rest
        → Step s (record s { listener = working b; sizes = rest })
    receive_closed :
        (s : Link)
        → s.listener ≡ receiving
        → s.sizes ≡ []
        → s.tool ≡ ended
        → Step s (record s { listener = repeating })
    receive_failed :
        (s : Link) → s.listener ≡ receiving → Step s (record s { listener = abandoned })
    -- The block as the listener finds it in the shared memory, which the padding may then change.
    store :
        (s : Link) (b padded : Block)
        → s.listener ≡ working b
        → Step s (record s { listener = top; block = padded; stored = s.stored ++ s.block ∷ [] })
    repeat :
        (s : Link) (padded : Block)
        → s.listener ≡ repeating
        → Step s (record s { listener = top; block = padded })
    -- The counters are gone, the message is empty, or the file cannot be written.
    give_up :
        (s : Link) (b : Block) → s.listener ≡ working b → Step s (record s { listener = abandoned })
    give_up_again : (s : Link) → s.listener ≡ repeating → Step s (record s { listener = abandoned })
    close_ready :
        (s : Link)
        → has_left s.listener ≡ true
        → s.closing ≡ opened
        → Step s (record s { closing = ready_closed })
    close_size : (s : Link) → s.closing ≡ ready_closed → Step s (record s { closing = closed })
    -- Another thread.
    set_stop : (s : Link) → Step s (record s { stop = true })

  pub data Reach (b : Block) : Link → Type 0 where
    here : Reach b (initial b)
    next : {s t : Link} → Reach b s → Step s t → Reach b t
