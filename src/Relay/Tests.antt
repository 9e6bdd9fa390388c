-- ===== src/Relay/Tests.antt =====
-- Concrete runs of the relay.
use noknowledge.Base.{
  ℕ, ◌≤◌, String, Bytes, ◌≡◌, refl, none, some, List, [], ◌∷◌, ◌++◌, arith, eq_String, eq_ℕ,
  if◌then◌else◌, take, select, first, count, sum, update,
}
use noknowledge.Base.Int.{pos, ltb_ℤ}
use noknowledge.Base.Outcome.{ok}
use noknowledge.Relay.Schema.{Mailbox, Message, Database, empty_database}
use noknowledge.Relay.Mailboxes.{create_mailbox, find_mailbox}
use noknowledge.Relay.Messages.{put_message, get_messages, store_message, usage}
use noknowledge.Relay.Housekeeping.{housekeeping, is_idle}
use noknowledge.Relay.Run.{Step, create, touch, put, publish, fetch, clean, step, run, hand_outs}
use noknowledge.Relay.Sound.{IsSound, IsExact}
use noknowledge.Relay.Sound.Always.{run-IsSound}
use noknowledge.Relay.Queue.{queue, get_messages-queue}
use noknowledge.Relay.OneTime.Once.{is_key, one_time_once}
use noknowledge.Relay.Idle.{blobs_of, housekeeping-effect}
use noknowledge.Relay.Limiter.{new_limiter, answers}
use noknowledge.Relay.Limiter.Window.{spec_answers, answers-eq-spec}

abbrev digest : Bytes
digest = 7 ∷ 7 ∷ []

abbrev box_steps : List Step
box_steps =
    create "alice" digest digest 0 3 100 ∷ put "alice" (1 ∷ 2 ∷ []) 5 ∷ put "alice" (3 ∷ []) 6 ∷ []

abbrev box : Database
box = run box_steps empty_database

run-IsSound_example :
    IsSound (run (box_steps ++ clean 9 1 1 ∷ []) empty_database)
    × IsExact (run (box_steps ++ clean 9 1 1 ∷ []) empty_database)
run-IsSound_example = run-IsSound (box_steps ++ clean 9 1 1 ∷ [])

abbrev key_steps : List Step
key_steps =
    publish "b" "signed" (some (pos 1, "k1") ∷ []) 0
    ∷ fetch "b"
    ∷ publish "b" "signed" (some (pos 1, "k1") ∷ []) 3
    ∷ fetch "b"
    ∷ []

one_time_once_example : count (is_key "b" (pos 1)) (hand_outs key_steps empty_database) ≤ 1
one_time_once_example = one_time_once key_steps "b" (pos 1)

get_messages-queue_example :
    get_messages "alice" (pos 1) 5 box
    ≡ (ok (take 5 (select (λ m. ltb_ℤ (pos 1) m.seq) (queue "alice" box))), box)
get_messages-queue_example = get_messages-queue "alice" (pos 1) 5 box (run-IsSound box_steps).0

abbrev first_row : Message
first_row = record {
  mailbox_id = "alice";
  seq = 1;
  ciphertext = 1 ∷ 2 ∷ [];
  created_at = 5;
  size = 2;
}

abbrev alice : Mailbox
alice = record {
  id = "alice";
  read_token_hash = digest;
  write_token_hash = digest;
  created_at = 0;
  last_seen = 6;
  max_messages = 3;
  max_bytes = 100;
  next_seq = 3;
}

found_alice : find_mailbox "alice" box ≡ some alice
unfolding run step put_message store_message create_mailbox usage first count sum update
found_alice = refl

-- The mailbox is touched after the fetch; a chunk is put there before the acknowledgement.
abbrev before : List Step
before = touch "alice" 7 ∷ []

housekeeping-effect_example :
    let after = (housekeeping 20 10 5 box).1 in
    (find_mailbox "alice" after ≡ (if is_idle 20 10 alice then none else some alice))
    × (queue "alice" after ≡ (if is_idle 20 10 alice then [] else queue "alice" box))
    × (blobs_of "alice" after ≡ (if is_idle 20 10 alice then [] else blobs_of "alice" box))
housekeeping-effect_example =
    housekeeping-effect 20 10 5 box "alice" alice (run-IsSound box_steps).0 found_alice

abbrev calls : List (String × ℕ)
calls = ("a", 1) ∷ ("a", 2) ∷ ("b", 2) ∷ ("a", 9) ∷ []

answers-eq-spec_example : answers calls (new_limiter (pos 1) 5) ≡ spec_answers 1 5 calls []
answers-eq-spec_example =
    answers-eq-spec 1 5 calls (omega arith)
      (omega arith, (omega arith, (omega arith, (omega arith, tt))))
