-- ===== src/Sse/Tests.antt =====
-- Runs of the parser and the sessions of src/protocols/sse.rs.
use strobengine.Prelude.{◌≤◌, ◌≡◌, arith, refl, none, some, List, [], ◌∷◌, map}
use strobengine.Text.Utf8.{Bytes}
use strobengine.Chaos.{ascii}
use strobengine.Metrics.Aggregate.{receive_all, new_running}
use strobengine.Sse.{
  SseEvent, parse_sse_chunk, find_frame_end, take_frames, earlier, find_text, starts_with, cut_at,
  parse_frame, finish_frame, read_fields, read_field, lines_from, strip_prefix, strip_space,
  push_event, join_lines,
}
use strobengine.Stomp.Decoder.{strip_cr}
use strobengine.Sse.Segments.{feed, cuts_irrelevant, joined, nothing_left}
use strobengine.Sse.Session.{Times, new}
use strobengine.Sse.Counting.{Meeting, iterate, events_capped}
use strobengine.Sse.Reported.{Chunks, open_session, served, triangular, events_reported}
use strobengine.Distributed.Master.Pipeline.Tests.{whole_floats}
use strobengine.Distributed.Telemetry.Tests.{value_lists}

-- "data:a", and both delimiters cut in two.
abbrev chunks : List Bytes
chunks =
    (100 ∷ 97 ∷ 116 ∷ 97 ∷ 58 ∷ 97 ∷ 10 ∷ [])
    ∷ (10 ∷ 100 ∷ 97 ∷ 116 ∷ 97 ∷ 58 ∷ 98 ∷ 13 ∷ 10 ∷ 13 ∷ [])
    ∷ (10 ∷ 120 ∷ [])
    ∷ []

cuts_irrelevant_example : feed [] chunks ≡ parse_sse_chunk [] (joined chunks)
cuts_irrelevant_example = cuts_irrelevant chunks

nothing_left_example :
    find_frame_end (parse_sse_chunk (ascii "data:a") (10 ∷ 10 ∷ 120 ∷ [])).1 ≡ none
nothing_left_example = nothing_left (ascii "data:a") (10 ∷ 10 ∷ 120 ∷ [])

abbrev one_event : Bytes
one_event = 100 ∷ 97 ∷ 116 ∷ 97 ∷ 58 ∷ 97 ∷ 10 ∷ 10 ∷ []

abbrev times : Times
times = record {
  iteration_start = 0;
  connect_start = 0;
  req_start = 1000;
  now = 5000;
  returned = 6000;
}

-- A connect, an event, and one more iteration that the cap stops.
abbrev meetings : List (Meeting (λ b. b))
meetings =
    (none, some (record { status_code = 200; body = some one_event ∷ some one_event ∷ [] }), times)
    ∷ (none, none, times)
    ∷ []

abbrev an_event : SseEvent
an_event = record { event_type = []; «data» = 97 ∷ []; id = none }

parsed_once : parse_sse_chunk [] one_event ≡ (an_event ∷ [], [])
unfolding parse_sse_chunk find_frame_end strip_cr take_frames earlier find_text starts_with cut_at
    parse_frame finish_frame read_fields read_field lines_from strip_prefix strip_space push_event
    join_lines
parsed_once = refl

-- An event of another length.
abbrev another_event : Bytes
another_event = 100 ∷ 97 ∷ 116 ∷ 97 ∷ 58 ∷ 98 ∷ 98 ∷ 10 ∷ 10 ∷ []

another_parsed :
    parse_sse_chunk [] another_event
    ≡ (record { event_type = []; «data» = 98 ∷ 98 ∷ []; id = none } ∷ [], [])
unfolding parse_sse_chunk find_frame_end strip_cr take_frames earlier find_text starts_with cut_at
    parse_frame finish_frame read_fields read_field lines_from strip_prefix strip_space push_event
    join_lines
another_parsed = refl

abbrev three_chunks : Chunks
three_chunks = (one_event, times) ∷ (another_event, times) ∷ (one_event, times) ∷ []

-- Three events are reported as six.
events_reported_example :
    ((served
        (λ b. b)
        (open_session (one_event ∷ another_event ∷ one_event ∷ []) 200 0 none none)
        three_chunks).0.events_received
      ≡ 3)
    × ((receive_all whole_floats value_lists (new_running whole_floats value_lists 1 0) (
          map
            (λ m. (m, 0))
            (served
              (λ b. b)
              (open_session (one_event ∷ another_event ∷ one_event ∷ []) 200 0 none none)
              three_chunks).1)).protocols.sse.stats.total_events_received
        ≡ 6)
unfolding triangular
events_reported_example =
    events_reported (λ b. b) whole_floats value_lists 1 0 0 200 three_chunks
      ((an_event, parsed_once), ((_, another_parsed), ((an_event, parsed_once), tt)))

events_capped_example : (iterate (λ b. b) (new (some 1)) meetings).0.events_received ≤ 1
events_capped_example = events_capped (λ b. b) 1 meetings (omega arith)
