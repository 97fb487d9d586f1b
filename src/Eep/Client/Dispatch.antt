-- ===== src/Eep/Client/Dispatch.antt =====
-- The command queue of EEPClient: checkCommandQueue, the posted part of enqueueCommand, and
-- popFromCommandQueueAndEnqueueWrite.
use linux_pbs.Base.{
  ℕ, ◌+◌, ◌%◌, ◌^◌, Bool, true, false, not, ◌||◌, Option, none, some, List, [], ◌∷◌, ◌++◌,
  if◌then◌else◌,
}
use linux_pbs.Eep.CommandType.{CommandType, MsgStatus, send_failed, uses_controller_sequence}
use linux_pbs.Eep.CommandData.{CommandData}
use linux_pbs.Eep.Prepare.{prepare_cmd}
use linux_pbs.Eep.Queue.{Command, push, pop}
use linux_pbs.Eep.Client.State.{
  State, connected, Client, write_command, write_timeout, process_event,
}
use linux_pbs.Eep.Client.Failure.{handle_command_error_or_timeout}

abbrev pub is_connected_state : State → Bool
is_connected_state connected = true
is_connected_state _ = false

abbrev pub announce : List Command → Client → Client
announce [] m = m
announce (c ∷ cs) m = process_event write_command m

unfoldable pub check_command_queue : Client → Client
check_command_queue m =
    if m.stopping || not (is_connected_state m.current_state) then m else announce m.command_queue m

unfoldable pub enqueue_command_on_io_thread : CommandType → ℕ → CommandData → Client → Client
unfolding handle_command_error_or_timeout check_command_queue
enqueue_command_on_io_thread type priority d m =
    if m.stopping
    then m
    else let counted = record m { command_sequence = (m.command_sequence + 1) % 2 ^ 64 } in
      if m.is_connected
      then check_command_queue (record counted {
        command_queue =
            push
              (record {
                type = type;
                priority = priority;
                sequence = m.command_sequence;
                cmd_data = d;
              })
              m.command_queue;
      })
      else handle_command_error_or_timeout type send_failed counted

-- The posted part of postCommandFailure.
unfoldable pub fail_on_io_thread : CommandType → MsgStatus → Client → Client
unfolding handle_command_error_or_timeout
fail_on_io_thread type status m =
    if m.stopping then m else handle_command_error_or_timeout type status m

-- EEPClient::shutdownOnIoThread.
unfoldable pub shutdown_on_io_thread : Client → Client
shutdown_on_io_thread m = record m {
  reconnect_timer = false;
  connect_timer = false;
  send_timer = false;
  response_timer = false;
  ack_timer = false;
  watchdog_timer = false;
  health_status_timer = false;
  command_queue = [];
  closes = m.closes + 1;
}

-- The command becomes the current one, and the one requested unless it is an ACK or a NAK.
unfoldable pub set_current : Command → Client → Client
set_current c m =
    if uses_controller_sequence c.type
    then record m { current_cmd = c; current_cmd_requested = c }
    else record m { current_cmd = c }

-- The end of prepareCmd: a request takes the sequence number.
unfoldable pub take_sequence_no : CommandType → Client → Client
take_sequence_no type m =
    if uses_controller_sequence type
    then record m {
      expected_response_seq_no = some m.sequence_no;
      sequence_no = (m.sequence_no + 1) % 65536;
    }
    else m

-- EEPClient::eepClientSend.
abbrev pub eep_client_send : List ℕ → Client → Client
eep_client_send frame m = if m.stopping then m else record m { sent = m.sent ++ frame ∷ [] }

unfoldable pub send_prepared : CommandType → Option (List ℕ) → Client → Client
unfolding take_sequence_no
send_prepared type none m = process_event write_timeout m
send_prepared type (some frame) m = eep_client_send frame (take_sequence_no type m)

unfoldable pub send_top : Option (Command × List Command) → Client → Client
unfolding set_current prepare_cmd send_prepared
send_top none m = m
send_top (some (c, rest)) m =
    send_prepared c.type (prepare_cmd m.endpoint m.clock c.type c.cmd_data m.sequence_no)
      (set_current c (record m { command_queue = rest }))

unfoldable pub pop_from_command_queue_and_enqueue_write : Client → Client
unfolding pop send_top
pop_from_command_queue_and_enqueue_write m = send_top (pop m.command_queue) m
