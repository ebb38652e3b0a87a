-- ===== src/Agent/Loop/Orphans.antt =====
-- The order of the reactions to a response: the automatic compaction comes before the tool calls.
use perry_hermes.Prelude.{none, Result}
use perry_hermes.Core.Message.{Message}
use perry_hermes.Core.Provider.{Completion}
use perry_hermes.Agent.Compaction.{CompactionResult, Strategy, CompactError}
use perry_hermes.Agent.Host.{Env}
use perry_hermes.Agent.Turn.{Turn, push, record_usage, emit}
use perry_hermes.Agent.Events.{Event}

module _ (E : Env) where
  open E use {J, H}
  open J use {Value}
  open H use {W}

  -- The call that an automatic compaction of `t` makes is `strategy` on its messages.
  abbrev pub compaction_of :
      Strategy Value W → Turn E → Result (CompactionResult Value) CompactError × W
  compaction_of strategy t =
      strategy t.messages none (H.compaction_duration (H.strategy_locked t.world).1).1

  -- the state of a turn when the response is pushed and counted
  abbrev pub responded : Completion Value → Turn E → Turn E
  responded c t =
      emit E (Event.assistant_message c.message) (push E c.message (record_usage E c.usage t))
