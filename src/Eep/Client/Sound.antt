-- ===== src/Eep/Client/Sound.antt =====
-- What the frames of the EEP client, and the commands that wait for theirs, have in common.
pub mod Failures
pub mod Handlers
pub mod Requests
pub mod Reception
pub mod Runs
use linux_pbs.Base.{
  ℕ, ◌+◌, ◌<◌, ◌≡◌, refl, sym, ◌∙◌, Option, none, some, List, [], ◌∷◌, ◌++◌, length, All,
  All-append, true, arith, length-append, if-both,
}
use linux_pbs.Bytes.{u32_bytes}
use linux_pbs.Eep.CommandType.{CommandType}
use linux_pbs.Eep.CommandData.{CommandData}
use linux_pbs.Eep.CommandData.Sizes.{Fits}
use linux_pbs.Eep.Frame.{
  Clock, Endpoint, MessageHeader, message_header, calculate_checksum_no_padding, is_valid_check_sum,
  without_check_sum, parse_message,
}
use linux_pbs.Eep.Frame.RoundTrip.{header_of, length-message_header}
use linux_pbs.Eep.Prepare.{Content, content_of, message, frame_of, finish, prepare_cmd}
use linux_pbs.Eep.Prepare.RoundTrip.{IsContent, Good, content_of-Good, frame_of-IsFrameOf}
use linux_pbs.Eep.Queue.{Command}
use linux_pbs.Eep.Client.State.{
  Post, process, check_queue, enqueue, fail, Client, post, enqueue_command,
}

-- A frame that the receiver of eep_client.cpp accepts: a valid check code, a header that parses, and
-- as many bytes of content as the header says, no more and no less.
pub record IsAccepted (frame : List ℕ) : Type 0 where
  pub header : MessageHeader
  pub content : List ℕ
  pub check_ok : is_valid_check_sum frame ≡ true
  pub parsed : parse_message (without_check_sum frame) ≡ some (header, content)
  pub exact : length frame ≡ 16 + header.data_len + 4

frame_of-IsAccepted :
    (e : Endpoint) (clock : Clock) (c : Content) → IsContent c → IsAccepted (frame_of e clock c)
unfolding frame_of
frame_of-IsAccepted e clock c h = record {
  header = header_of e clock c.code c.seq_no c.data_len;
  content = c.payload;
  check_ok = (frame_of-IsFrameOf e clock c h).check_ok;
  parsed = (frame_of-IsFrameOf e clock c h).parsed;
  exact = omega (
    arith,
    length-append (message e clock c)
        (u32_bytes (calculate_checksum_no_padding (message e clock c))),
    length-append (message_header e clock c.code c.seq_no c.data_len) c.payload,
    length-message_header e clock c.code c.seq_no c.data_len,
    h.len_ok,
  );
}

abbrev pub AcceptedIf : Option (List ℕ) → Type 0
AcceptedIf none = Unit
AcceptedIf (some frame) = IsAccepted frame

finish-AcceptedIf :
    (e : Endpoint) (clock : Clock) (c : Option Content) → Good c → AcceptedIf (finish e clock c)
unfolding finish
finish-AcceptedIf e clock none g = tt
finish-AcceptedIf e clock (some c) g = frame_of-IsAccepted e clock c g

-- prepareCmd fails, or gives a frame that the peer accepts.
pub prepare_cmd-AcceptedIf :
    (e : Endpoint) (clock : Clock) (type : CommandType) (d : CommandData) (seq_no : ℕ)
    → Fits type d
    → seq_no < 65536
    → AcceptedIf (prepare_cmd e clock type d seq_no)
unfolding prepare_cmd
prepare_cmd-AcceptedIf e clock type d seq_no h n =
    finish-AcceptedIf e clock (content_of type d e.carpark_id seq_no)
      (content_of-Good e.carpark_id seq_no h n)

abbrev pub Fitting : Command → Type 0
Fitting c = Fits c.type c.cmd_data

abbrev pub PostFits : Post → Type 0
PostFits (enqueue type priority d) = Fits type d
PostFits _ = Unit

-- The sequence number fits its field; the commands queued and posted carry their data, sized; and
-- every frame sent is one that the peer accepts.
abbrev pub Sound : Client → Type 0
Sound m =
    (m.sequence_no < 65536)
    × All Fitting m.command_queue
    × All PostFits m.posted
    × All IsAccepted m.sent

pub post-Sound : (p : Post) (m : Client) → PostFits p → Sound m → Sound (post p m)
post-Sound p m h (s, q, ps, f) = (s, q, All-append PostFits m.posted (p ∷ []) ps (h, tt), f)

pub enqueue_command-Sound :
    (type : CommandType) (priority : ℕ) (d : CommandData) (m : Client)
    → Fits type d
    → Sound m
    → Sound (enqueue_command type priority d m)
unfolding enqueue_command
enqueue_command-Sound type priority d m h v =
    if-both Sound m.accepting_work (post-Sound (enqueue type priority d) m h v) v
