-- ===== src/Net/Tests.antt =====
-- Two ends of a connection, with a small generator for the cipher's.
use nihao_github_io.Base.{
  ℕ, suc, ◌+◌, ◌%◌, ◌≡◌, refl, Bool, true, false, List, [], ◌∷◌, ◌++◌, take, length, inl, arith,
}
use nihao_github_io.Net.Messages.{
  network4, received, put_back_byte, read_byte, read_str, send_text, send_cmd_str,
}
use nihao_github_io.Net.Ready.{IsReady}
use nihao_github_io.Net.Exchange.{send_cmd_str-Flushed, read_str-send_text}
use nihao_github_io.Net.{
  and_then, Turing, PConn, ok, net_flush, send_data, bytes, got, read_data, crypt_buff,
}
use nihao_github_io.Net.Send.{IsWritten, Outcome, Flushed}
use nihao_github_io.Net.Long.{skipped, send_data-Outcome}
use nihao_github_io.Net.Receive.{ahead, IsRead}
use nihao_github_io.Net.Read.{IsGot, read_data-IsRead}
use nihao_github_io.Net.Transfer.{IsPeer, read_data-IsGot, read_data-net_flush}

abbrev count : ℕ → (ℕ → ℕ) × ℕ
count g = ((λ i. (g + i) % 256), suc g)

abbrev first_keys : Turing ℕ
first_keys = record { key_stream = λ i. (7 + i) % 256; pos = 3398; gen = 9 }

-- A sender with bytes `bs` in its buffer, and a reader that will receive `bs`.
abbrev sender : Bool → List ℕ → PConn ℕ
sender b bs = record {
  srv_sock = true;
  b_encry = b;
  turing_s = first_keys;
  turing_r = first_keys;
  sbuff = bs;
  rbuff = [];
  sent = [];
  sends = 2 ∷ 1 ∷ 5 ∷ [];
  arriving = [];
  recvs = [];
  back_byte = 0;
}

abbrev reader : List ℕ → PConn ℕ
reader bs = record {
  srv_sock = true;
  b_encry = true;
  turing_s = first_keys;
  turing_r = first_keys;
  sbuff = [];
  rbuff = [];
  sent = [];
  sends = [];
  arriving = bs;
  recvs = 1 ∷ 3 ∷ 1 ∷ [];
  back_byte = 0;
}

abbrev message : List ℕ
message = 72 ∷ 105 ∷ 33 ∷ 10 ∷ []

message-IsWritten : IsWritten count true first_keys [] message (sender true message)
unfolding crypt_buff
message-IsWritten = record {
  out = [];
  parts = refl;
  wire = refl;
  key = refl;
  small = omega arith;
  connected = refl;
  mode = refl;
}

-- The keys change behind the second byte.
abbrev coded : List ℕ
coded = 17 ∷ 51 ∷ 40 ∷ 0 ∷ []

flushed : PConn ℕ
flushed = record (sender true []) {
  turing_s = record { key_stream = λ i. (9 + i) % 256; pos = 2; gen = 10 };
  sent = coded;
  sends = [];
}

flush_runs : net_flush count (sender true message) ≡ ok flushed
unfolding net_flush flushed
flush_runs = refl

reader_wire : (reader coded).arriving ≡ flushed.sent
unfolding flushed
reader_wire = refl

read_data-net_flush_example :
    (r : PConn ℕ) × (read_data count (reader coded) 3 ≡ got (take 3 message) r)
read_data-net_flush_example =
    read_data-net_flush count true first_keys message (sender true message) flushed (reader coded) 3
      message-IsWritten flush_runs
      (record { connected = refl; mode = refl; key = refl; fresh = refl; wire = reader_wire })
      (omega arith, (omega arith, (omega arith, tt))) (omega arith) (omega arith)

read_data-IsRead_example :
    IsRead count (ahead count (reader coded)) [] 3 (read_data count (reader coded) 3)
read_data-IsRead_example = read_data-IsRead count (reader coded) 3 refl (omega arith)

read_data-IsGot_example : IsGot (read_data count (reader coded) 3)
read_data-IsGot_example =
    read_data-IsGot count (reader coded) 3 (omega arith, (omega arith, (omega arith, tt)))
      (omega arith) (omega arith)

-- Two bytes wait, and 2049 more are sent without encryption.
waiting : IsWritten count false first_keys [] (1 ∷ 2 ∷ []) (sender false (1 ∷ 2 ∷ []))
waiting = record {
  out = [];
  parts = refl;
  wire = refl;
  key = refl;
  small = omega arith;
  connected = refl;
  mode = refl;
}

waiting_skipped : skipped (sender false (1 ∷ 2 ∷ [])) 2049 ≡ 2
waiting_skipped = refl

send_data-Outcome_example :
    Outcome count false first_keys []
      ((1 ∷ 2 ∷ []) ++ bytes (λ i. i) (skipped (sender false (1 ∷ 2 ∷ [])) 2049) 2049)
      (send_data count (sender false (1 ∷ 2 ∷ [])) (λ i. i) 2049)
send_data-Outcome_example =
    send_data-Outcome count first_keys [] false (1 ∷ 2 ∷ []) (sender false (1 ∷ 2 ∷ [])) (λ i. i)
      2049 waiting

nothing-IsWritten : IsWritten count true first_keys [] [] (sender true [])
unfolding crypt_buff
nothing-IsWritten = record {
  out = [];
  parts = refl;
  wire = refl;
  key = refl;
  small = omega arith;
  connected = refl;
  mode = refl;
}

abbrev greeting : List ℕ
greeting = 72 ∷ 105 ∷ []

send_cmd_str-Flushed_example :
    Flushed count true first_keys []
      ((((b'?' ∷ []) ++ network4 (length greeting)) ++ (greeting ++ (0 ∷ []))) ++ network4 0)
      (send_cmd_str count (sender true []) greeting)
send_cmd_str-Flushed_example =
    send_cmd_str-Flushed count true first_keys [] [] greeting (sender true []) (inl refl)
      nothing-IsWritten

text_sent : PConn ℕ
text_sent = record (sender true []) {
  turing_s = record { key_stream = λ i. (9 + i) % 256; pos = 4; gen = 10 };
  sent = 89 ∷ 90 ∷ 9 ∷ 8 ∷ 67 ∷ 101 ∷ [];
  sends = [];
}

text_runs : and_then (send_text count (sender true []) greeting) (net_flush count) ≡ ok text_sent
unfolding and_then send_text net_flush text_sent
text_runs = refl

abbrev text_reader : PConn ℕ
unfolding text_sent
text_reader = record (reader text_sent.sent) { recvs = 4 ∷ 3 ∷ 1 ∷ 1 ∷ 1 ∷ 1 ∷ [] }

text_reader-IsReady : IsReady text_reader
unfolding text_sent
text_reader-IsReady = record {
  connected = refl;
  moving =
      (omega arith, (omega arith, (omega arith, (omega arith, (omega arith, (omega arith, tt))))));
  calls = omega arith;
  small = omega arith;
}

text_wire : text_reader.arriving ≡ text_sent.sent
unfolding text_sent
text_wire = refl

text-IsPeer : IsPeer count true first_keys text_sent text_reader
unfolding text_reader
text-IsPeer = record { connected = refl; mode = refl; key = refl; fresh = refl; wire = text_wire }

read_str-send_text_example : (r : PConn ℕ) × (read_str count text_reader ≡ received greeting r)
read_str-send_text_example =
    read_str-send_text count true first_keys greeting (sender true []) text_sent text_reader
      nothing-IsWritten (inl refl) (omega arith) text_runs text-IsPeer text_reader-IsReady

-- A byte that was put back is read first, and then the next one.
reads_again :
    read_byte count (put_back_byte text_reader 5)
    ≡ received 5 (record text_reader { back_byte = 0 })
unfolding read_byte put_back_byte
reads_again = refl
