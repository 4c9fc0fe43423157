-- ===== src/Requests/Cap.antt =====
-- `CapRequestLengthToHeaderEnd` of src/AmmServerlib/header_analysis/generic_header_tools.c.
use ammar_server.Base.{
  ℕ, ◌+◌, ◌-◌, ◌%◌, ◌≤◌, ◌<◌, ◌≡◌, true, false, inl, inr, min, ltb, leb, ◌==◌, arith, Bool-cases,
}
use ammar_server.Chunked.{uint}
use ammar_server.Requests.{Header, cap_request_length_to_header_end}

-- For a chunked request whose header end has been found, with its next position in an `unsigned
-- int`: the bytes that are walked as header lines from an offset on are those asked for, but never
-- one behind the last new line of the header.
pub cap_request_length_to_header_end-min :
    (output : Header) (start_offset request_length : ℕ)
    → output.chunked ≡ true
    → 0 < output.header_raw_head_size
    → output.header_raw_head_size + 1 < uint
    → cap_request_length_to_header_end output start_offset request_length
      ≡ min request_length (output.header_raw_head_size + 1 - start_offset)
unfolding cap_request_length_to_header_end
cap_request_length_to_header_end-min output start_offset request_length chunked head fits =
    let z : (output.header_raw_head_size == 0) ≡ false = ground arith in
    let w : (output.header_raw_head_size + 1) % uint ≡ output.header_raw_head_size + 1 =
      omega arith in
    elim (Bool-cases (leb (output.header_raw_head_size + 1) start_offset)) [
      | inl behind ↦
          let le : output.header_raw_head_size + 1 ≤ start_offset = ground arith in
          rw (chunked, z, w, behind) (omega arith)
      | inr before ↦
          elim (Bool-cases (ltb (output.header_raw_head_size + 1 - start_offset) request_length)) [
            | inl more ↦
                let lt : output.header_raw_head_size + 1 - start_offset < request_length =
                  ground arith in
                rw (chunked, z, w, before, more) (omega arith)
            | inr all ↦
                let le : request_length ≤ output.header_raw_head_size + 1 - start_offset =
                  ground arith in
                rw (chunked, z, w, before, all) (omega arith)
          ]
    ]
