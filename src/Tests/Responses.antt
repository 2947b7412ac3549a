-- ===== src/Tests/Responses.antt =====
-- Runs of the parts of src/http.c that read a header and write a response.
use simle_http_server.Prelude.{
  ℕ, ◌≡◌, refl, List, [], ◌∷◌, ◌++◌, arith, ok, length, drop, take, pos, inl,
}
use simle_http_server.Cbuf.{Cbuf, buf_data_maxsize}
use simle_http_server.Cbuf.Valid.{IsValid}
use simle_http_server.Cbuf.Contents.{contents}
use simle_http_server.Task.{HttpTask, live, freed, send_header_state}
use simle_http_server.Peer.{Peer}
use simle_http_server.Header.{token_status, read_header_data}
use simle_http_server.Header.Terminator.{matched, token_status_lem}
use simle_http_server.Header.Reading.{read_onto, Stored, Stopped}
use simle_http_server.Header.Scan.{read_header_data-Scanned}
use simle_http_server.Response.{
  generate_nonbody_response, send_nonbody_reponse, stream_file_content, stream_file_done,
}
use simle_http_server.Response.Nonbody.{nonbody_text, generate_nonbody_response_lem}
use simle_http_server.Response.Flush.{send_nonbody_reponse_lem}
use simle_http_server.Response.Stream.{stream_file_content_lem}
use simle_http_server.Tests.Data.{
  no_bytes, no_bytes-IsValid, two_bytes, two_bytes-IsValid, full_cbuf, full_cbuf-IsValid, new_task,
  new_task-Reading, peer_of, some_file,
}

token_status_lem_example : token_status (matched (13 ∷ [])) 10 ≡ ok (matched (10 ∷ 13 ∷ []))
token_status_lem_example = token_status_lem (13 ∷ []) 10 (omega arith)

read_header_data-Scanned_example :
    (ret : ℕ) × (t' : HttpTask) × (c' : Cbuf) × (taken : List ℕ) × (read_header_data
        (peer_of new_task)
      ≡ ok (ret, record (peer_of new_task) { http_task = live t'; receiving_buffer = c' }))
    × (contents two_bytes ≡ taken ++ contents c')
    × Stored t'.parse_buf (read_onto taken [])
    × (t'.parse_buf_idx ≡ length (read_onto taken []))
    × (t' ≡ record new_task {
      parse_buf = t'.parse_buf;
      parse_buf_idx = t'.parse_buf_idx;
      header_term_token_status = t'.header_term_token_status;
    })
    × IsValid c'
    × Stopped c' ret t' (read_onto taken [])
read_header_data-Scanned_example =
    read_header_data-Scanned (peer_of new_task) new_task [] refl new_task-Reading two_bytes-IsValid

generate_nonbody_response_lem_example :
    (buf : Cbuf) × (generate_nonbody_response new_task (pos 200)
      ≡ ok (send_header_state, record new_task { response_buf = buf }))
    × (contents buf ≡ contents no_bytes ++ nonbody_text 200)
    × IsValid buf
generate_nonbody_response_lem_example =
    generate_nonbody_response_lem new_task 200 (inl refl) no_bytes-IsValid (omega arith)

abbrev answering_task : HttpTask
answering_task = record new_task { response_buf = two_bytes }

-- A connection whose sending buffer is full.
abbrev busy_peer : Peer
busy_peer = record (peer_of answering_task) { sending_buffer = full_cbuf }

send_nonbody_reponse_lem_example :
    (r : Cbuf) × (s : Cbuf) × (send_nonbody_reponse busy_peer
      ≡ ok (
        send_header_state,
        record busy_peer {
          http_task = live (record answering_task { response_buf = r });
          sending_buffer = s;
        },
      ))
    × (contents s ≡ contents full_cbuf ++ take 0 (contents two_bytes))
    × (contents r ≡ drop 1 (contents two_bytes))
    × IsValid r
    × IsValid s
send_nonbody_reponse_lem_example =
    send_nonbody_reponse_lem busy_peer answering_task refl two_bytes-IsValid full_cbuf-IsValid

abbrev file_task : HttpTask
file_task = record new_task { fp = live some_file }

stream_file_content_lem_example :
    (buf : Cbuf) × (stream_file_content (peer_of file_task)
      ≡ ok (
        stream_file_done,
        record (peer_of file_task) {
          http_task = live (record file_task { fp = freed });
          sending_buffer = buf;
        },
      ))
    × (contents buf ≡ contents no_bytes ++ take buf_data_maxsize (1 ∷ 2 ∷ 255 ∷ []))
    × IsValid buf
stream_file_content_lem_example =
    stream_file_content_lem (peer_of file_task) file_task some_file refl refl refl no_bytes-IsValid
