-- ===== src/Tests/Address.antt =====
-- The addresses of data connections at concrete commands.
use yatb.Address.{
  Local, own_ip, parse_port_command, parse_psv_command, create_psv_command, replace_first, comma_ip,
}
use yatb.Address.Parse.{dotted, in_commas, parse_port_command_lem}
use yatb.Address.RoundTrip.{parse_psv_command-create}
use yatb.Prelude.{true, [], ◌∷◌, ◌++◌, some, none, ◌≡◌, refl, arith, pos, ◌*ℤ◌, ◌+ℤ◌}
use yatb.Text.{Bytes, codes, find}
use yatb.Text.Number.{atoi, print}

abbrev home : Local
home = record {
  nat_pasv_ip = [];
  listen_ip = codes "10.0.0.7";
  resolved_nat_ip = [];
  interface_ip = none;
}

create_run :
    create_psv_command home 5132 ≡ some (codes "227 Entering Passive Mode (10,0,0,7,20,12)\r\n")
unfolding create_psv_command find print comma_ip replace_first own_ip
create_run = refl

parse_psv_command-create_example :
    (reply : Bytes) × (create_psv_command home 5132 ≡ some reply)
    × (parse_psv_command reply [] (pos 0) ≡ record {
      ret = true;
      ip = dotted (codes "10") (codes "0") (codes "0") (codes "7");
      port = pos 5132;
    })
unfolding own_ip
parse_psv_command-create_example =
    parse_psv_command-create home (codes "10") (codes "0") (codes "0") (codes "7") [] 5132 (pos 0)
      refl (omega arith) (omega arith) (omega arith) (omega arith)

parse_port_command_lem_example :
    parse_port_command
      (codes "PORT"
        ++ b' '
          ∷ in_commas (codes "10") (codes "0") (codes "0") (codes "7") (codes "20") (codes "12"))
      []
      (pos 0)
    ≡ record {
      ret = true;
      ip = dotted (codes "10") (codes "0") (codes "0") (codes "7");
      port = pos 256 *ℤ atoi (codes "20") +ℤ atoi (codes "12");
    }
parse_port_command_lem_example =
    parse_port_command_lem (codes "10") (codes "0") (codes "0") (codes "7") (codes "20")
      (codes "12") (omega arith) (omega arith) (omega arith) (omega arith) (omega arith) refl refl
      (codes "PORT") [] (pos 0) (omega arith)
