-- ===== src/Connection/Tests.antt =====
-- Reads and writes with concrete answers of the system.
use high_performance_http_se.Base.{
  ◌≡◌, refl, true, [], ◌∷◌, codes, find, starts_with, find_from, arith, List,
}
use high_performance_http_se.Connection.{
  Connection, Recv, Send, Outcome, close, read_until, to_read, until_loop, write_all,
}
use high_performance_http_se.Connection.Search.{IsCut, read_until-IsCut}
use high_performance_http_se.Connection.Memory.{IsWithin, read_until-IsWithin}
use high_performance_http_se.Connection.Writing.{IsSent, write_all-IsSent}

abbrev conn : Connection
conn = record { is_open = true; read_buffer = codes "GE" }

-- The delimiter comes in two parts, with an interruption between.
abbrev answers : List Recv
answers =
    Recv.received (codes "T /\r")
    ∷ Recv.interrupted
    ∷ Recv.received (codes "\nHost")
    ∷ Recv.failed
    ∷ []

cut_line : (read_until conn [] (codes "\r\n") 100 answers).buffer ≡ codes "GET /\r\n"
unfolding read_until until_loop find starts_with find_from
cut_line = refl

kept_line : (read_until conn [] (codes "\r\n") 100 answers).read_buffer ≡ codes "Host"
unfolding read_until until_loop find starts_with find_from
kept_line = refl

read_until-IsCut_example :
    IsCut (codes "\r\n") [] (codes "GE") answers (read_until conn [] (codes "\r\n") 100 answers)
read_until-IsCut_example = read_until-IsCut conn [] (codes "\r\n") 100 answers refl

abbrev short_sends : List Send
short_sends = Send.sent 2 ∷ Send.interrupted ∷ Send.sent 3 ∷ []

write_all-IsSent_example : IsSent (codes "hello") (write_all conn (codes "hello") short_sends)
write_all-IsSent_example =
    write_all-IsSent conn (codes "hello") short_sends refl (omega arith, (omega arith, tt))

-- On a closed connection, a write returns true with nothing written.
closed_write : (write_all (close conn) (codes "HTTP") []).outcome ≡ Outcome.returned true
unfolding write_all close
closed_write = refl

read_until-IsWithin_example : IsWithin 100 (read_until conn [] (codes "\r\n") 100 answers)
unfolding to_read
read_until-IsWithin_example =
    read_until-IsWithin 100 100 conn [] (codes "\r\n") answers (omega arith) (omega arith)
      (omega arith, (omega arith, tt)) (omega arith)
