-- ===== src/Relay/Later.antt =====
-- What a relay of noknowledge/server/db.py runs between the fetch of a page and its acknowledgement:
-- the numbers of a mailbox only grow while it is there.
use noknowledge.Base.{◌≤◌, String, ◌≡◌, some, List, [], ◌∷◌, eq_String}
use noknowledge.Relay.Schema.{Mailbox, Database}
use noknowledge.Relay.Mailboxes.{find_mailbox}
use noknowledge.Relay.Run.{Step, step}
use noknowledge.Relay.Sound.Upload

-- The numbers of a mailbox do not go back from one state to another.
abbrev Grows : String → Database → Database → Type 0
Grows id db db' =
    (m m' : Mailbox)
    → find_mailbox id db ≡ some m
    → find_mailbox id db' ≡ some m'
    → m.next_seq ≤ m'.next_seq

module _ (id : String) where
  -- The mailbox is there after each step.
  abbrev pub Stays : List Step → Database → Type 0
  Stays [] db = Unit
  Stays (s ∷ steps) db =
      ((m : Mailbox) × (find_mailbox id (step s db) ≡ some m)) × Stays steps (step s db)
