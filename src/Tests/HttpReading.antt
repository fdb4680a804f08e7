-- ===== src/Tests/HttpReading.antt =====
-- Tests of Http.Reading and of ParseLine.
use you_shuang.Base.{refl, List, [], ◌∷◌, ◌++◌, arith, codes, Returns, IfReturns, replicate, none}
use you_shuang.Http.Conn.{HttpConn}
use you_shuang.Http.Reading.{FileSystem, process_read}
use you_shuang.Http.Reading.Terminates.{IsReading, process_read-Ends}
use you_shuang.Http.Reading.Terminates
use you_shuang.Http
use you_shuang.Http.Reading
use you_shuang.Base.Bytes
use you_shuang.Http.Reading.Fills.{Filled, read-Filled}
use you_shuang.ParseLine.{Received, bytes, serve}
use you_shuang.ParseLine.Terminates.{serve-Returns}
use you_shuang.Tests.HttpResponse.{fresh}

-- A request with tabs between its parts, in two pieces.
abbrev request : List Received
request = bytes (codes "GET\t/a\tHT") ∷ bytes (codes "TP/1.1\r\nHost:x\r\n\r\n") ∷ []

abbrev spaced_request : List Received
spaced_request = bytes (codes "GET /a HTTP/1.1\r\nHost: x\r\n\r\n") ∷ []

abbrev no_files : FileSystem
no_files = record { stat = λ _. none; mmap = λ _ _. 0 }

-- One request line with spaces, read and not yet analysed.
abbrev with_data : HttpConn
with_data = record fresh {
  read_buf = codes "GET /a HTTP/1.1\r\n" ++ replicate 2031 0;
  read_idx = 17;
}

process_read-Ends_example : IfReturns Terminates.Ends (process_read no_files with_data)
process_read-Ends_example = process_read-Ends no_files with_data (omega arith)

serve-Returns_example : Returns (λ _. Unit {0}) (serve request)
serve-Returns_example = serve-Returns request (omega arith)

-- A piece of a request, and then no more data.
abbrev first_piece : List Bytes.Received
first_piece = Bytes.bytes (codes "GET /a") ∷ Bytes.again ∷ []

with_data-IsReading : IsReading with_data
with_data-IsReading = record {
  size = refl;
  line_le = omega arith;
  checked_le = omega arith;
  filled = omega arith;
}

read-Filled_example :
    Returns (Filled with_data first_piece) (Http.Reading.read with_data first_piece)
read-Filled_example =
    read-Filled with_data first_piece with_data-IsReading (omega arith) (omega arith, tt)
