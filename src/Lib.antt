-- ===== src/Lib.antt =====
-- Verification library of LinuxPBS, a parking barrier station: the code that talks to the payment
-- terminal (UPT) over a serial line and to the road charging equipment (EEP) over TCP, and the packets
-- of the card reader (LCSC).
--
-- The program has a class per device. `Upt` (upt.cpp, upt.h) queues commands, turns each into a frame,
-- writes it, waits for an acknowledgement and a response, and reports failures to the event manager.
-- It stands on the message classes of upt.cpp, on CRC32 (crc.cpp) and on conversions of common.cpp.
-- `EEPClient` (eep_client.cpp, eep_client.h) keeps a connection through `AppTcpClient` (tcp_client.cpp),
-- takes requests from a priority queue one at a time, numbers and checksums their frames, waits for an
-- acknowledgement and a notification, answers what the equipment sends, and reconnects.
--
-- Base            shared names, tests on numbers, lists over the native numbers.
-- Bytes           common.cpp: FnExtractSubVector, FnConvertToUint8 to 64; upt.cpp: appendToBuffer.
-- Crc             crc.cpp: CRC32, its table and loop. Crc.Reference is the bit-by-bit CRC.
-- Upt.Codes, Upt.Status      STX, ETX and MSG_STATUS of upt.h.
-- Upt.Transparency           FnAddDataTransparency, FnRemoveDataTransparency.
-- Upt.Receiver               consumeReceivedBytes with rxBuffer_, rxNum_ and rxState_.
-- Upt.Message                MessageHeader, PayloadField, Message, FnCalculateIntegrityCRC32.
-- Upt.Parser                 FnParseMsgData.
-- Upt.Command                UPT_CMD, request data, checkCmd, incrementSequenceNo.
-- Upt.Prepare                prepareCmd, createPayload; the wall clock is the parameter `Clock`.
-- Upt.Machine.State          the members of Upt that belong to its I/O thread, as one record.
-- Upt.Machine.Writer         enqueueWrite, startWrite, writeEnd, stopSerialWriteDelayTimer,
--                            handleSerialWriteTimeout.
-- Upt.Machine.Queue          enqueueCommand, enqueueCommandOnIoThread, checkCommandQueue,
--                            popFromCommandQueueAndEnqueueWrite.
-- Upt.Machine.Failure        handleCmdErrorOrTimeout.
-- Upt.Machine.Events         stateTransitionTable, the handlers of the states, processEvent.
-- Upt.Machine.Receive        readEnd, handleReceivedCmd, isMsgStatusValid.
-- Upt.Machine.Inputs         what may happen next: a call, a posted handler, a completion, a timer.
-- Upt.Machine.Writes, Preserves, Invariant      the invariant, one lemma per operation.
-- Upt.Machine.Exchange, Cancel, CancelDuringWrite, LateDelay, Rounds, RunsOut, Timeouts, Sequence, Diagram
--                            runs of the machine, each for one situation.
-- Lcsc.Crc16                 lcsc.cpp: CRC16_CCITT; Lcsc.Crc16.Shift is the CRC of one register.
-- Lcsc.Packet                CscPacket: serializeWithoutCRC, serialize, deserialize.
-- Lcsc.Check                 the tests at the head of LCSCReader::handleReceivedCmd;
--                            isCurrentCmdResponse is an argument of theirs.
-- Eep.MessageCode, Eep.Priority, Eep.CommandType   the enumerations of eep_client.h.
-- Eep.CommandData            the data of the commands and their serialize functions. Sizes says how
--                            many bytes each gives, Lengths proves it.
-- Eep.Frame                  MessageHeader, appendMessageHeader, calculateChecksumNoPadding,
--                            isValidCheckSum, parseMessage.
-- Eep.Prepare                prepareCmd.
-- Eep.Text                   common.cpp: FnConvertHexStringToByteArray, FnDecimalStringToTwoBytes, with
--                            the parts of stoul and stoi that they use.
-- Eep.Queue                  Command, CompareCommand and the priority queue.
-- Eep.Client.State           the members of EEPClient that belong to its I/O thread, as one record.
-- Eep.Client.Timers          startReconnectTimer and the other start functions.
-- Eep.Client.Failure         handleCommandErrorOrTimeout, notifyConnectionState, clearCommandQueue,
--                            beginReconnect.
-- Eep.Client.Dispatch        enqueueCommandOnIoThread, checkCommandQueue, eepClientSend,
--                            popFromCommandQueueAndEnqueueWrite, shutdownOnIoThread.
-- Eep.Client.Events          stateTransitionTable, the handlers of the states, processEvent.
-- Eep.Client.Match           which response answers which command, which notification completes it.
-- Eep.Client.Receive         handleReceivedData and the functions it calls, FnSendAck, FnSendNak.
-- Eep.Client.Requests        the other FnSend functions with their conversions of strings.
-- Eep.Client.Inputs          what may happen next: a request, a callback, a timer, a posted handler.
-- Eep.Client.Reachable       what the environment may do, and the states that it leads to.
-- Eep.Client.Alive, Sound    two invariants, one lemma per operation in their child modules.
-- Eep.Client.Exchange        a request and its response, step by step.
-- Eep.Client.Reconnect       what a reconnect leaves and reports.
-- Eep.Client.Timeouts        what the client does when nothing comes back in time.
-- Tcp                        tcp_client.cpp, tcp_client.h: AppTcpClient. Pending counts the operations
--                            that have not completed, Session and Completions have a lemma per
--                            operation, Runs the invariant, Delivery the order of what is written.
-- Examples                   tests, and the theorems at concrete inputs.
--
-- The I/O thread runs one handler at a time, so the machine is a record and each input a function on
-- it. boost::asio::post is the list `posted`, first come first; async_write is a count of writes that
-- have not completed and the list `wire` of the frames given to it; a pending timer is a flag, and its
-- end an input with an `Outcome`, which may come at any time. `Admissible` asks only that a write ends
-- after it began; a delay's wait that ends during a write is counted, since asio lets a wait that has
-- expired report success after it was cancelled.
--
-- The EEP client is modelled the same way. Its TCP client is present through its callbacks, which
-- are inputs: whether it connected, whether it sent, what it received, that it closed.
-- `Admissible` says what is assumed of them: a wait of a timer ends with success or an abort, what
-- is received is bytes, and the posted part of FnEEPClientClose runs after its first part. The
-- parameter `get_time` stands for std::get_time. A std::priority_queue is a list, whose top is a
-- command that no other goes before. The JSON text of an event is left out: the event keeps the
-- command, the header and the body that it is made of. The serial number that the ACK of a
-- deduction is reported with is in the data of the current request.
--
-- The TCP client is modelled on its own, in Tcp: the operations that asio has in hand are a list, any
-- of which may complete next, and a state is reached only while its 64-bit generation does not run out.
--
-- Numbers are natural numbers; `% 2 ^ 32` stands where the source converts to uint32_t. Bytes are
-- numbers below 256 where a theorem says so. The parser's loop runs on fuel, one more than the bytes
-- of the payload; a field has eight bytes at least, so that the fuel suffices for every input. The
-- other loops are recursions on their input.
--
-- Not modelled: starting and stopping the module, read errors, the formatting of responses for the
-- event manager (handleCmdResponse, to_json), log texts, the settlement files that the EEP client writes
-- for a transaction, the LCSC reader's own state machines, and the classes of the other devices.
pub mod Base
pub mod Bytes
pub mod Crc
pub mod Upt
pub mod Lcsc
pub mod Eep
pub mod Tcp
pub mod Examples
