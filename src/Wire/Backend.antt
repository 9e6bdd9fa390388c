-- ===== src/Wire/Backend.antt =====
-- noknowledge/wire/backends/base.py: the capability of a mailbox, and what a relay offers.
use noknowledge.Base.{ℕ, String, Bytes, Option, List}
use noknowledge.Wire.Errors.{Call}

pub record MailboxCapability : Type 0 where
  pub mailbox_id : String
  pub write_token : String
  pub read_token : Option String

-- The operations on one relay, on the state of what the relay is to the client.
pub record Backend (S : Type 0) : Type 0 where
  pub create_mailbox : MailboxCapability → Call S Unit
  pub put : MailboxCapability → Bytes → Call S ℕ
  pub fetch : MailboxCapability → ℕ → ℕ → Call S (List (ℕ × Bytes))
  pub ack : MailboxCapability → ℕ → Call S ℕ
  pub delete_mailbox : MailboxCapability → Call S Unit
  pub publish_bundle : String → Bytes → Call S String
  pub fetch_bundle : String → Call S Bytes
  pub put_blob : MailboxCapability → String → Bytes → Call S String
  pub get_blob : MailboxCapability → String → Call S Bytes
