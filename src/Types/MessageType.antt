-- ===== src/Types/MessageType.antt =====
-- Mitosis/types/bftMsg.go: `type MessageType byte` and its six constants.
use mitosis.Prelude.{ℕ}

abbrev pub MessageType : Type 0
MessageType = ℕ

abbrev pub prepare : MessageType
prepare = 0

abbrev pub prepare_vote : MessageType
prepare_vote = 1

abbrev pub precommit : MessageType
precommit = 2

abbrev pub precommit_vote : MessageType
precommit_vote = 3

abbrev pub commit : MessageType
commit = 4

abbrev pub commit_vote : MessageType
commit_vote = 5
