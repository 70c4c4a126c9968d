-- ===== src/Tests/Guardian.antt =====
-- conpot/protocols/guardian_ast at concrete inputs.
use conpot.Prelude.{◌≤◌, ◌≡◌, refl, true, false, some, none, List, [], ◌∷◌, ◌++◌, length, arith}
use conpot.Prelude.Bytes.{Bytes, codes, ok}
use conpot.Prelude.Text.{concat, ljust, contains, starts_with, strip_right}
use conpot.Guardian.Tanks.{Tank, World}
use conpot.Guardian.Server.{Connection, is_complete, gather, serve}
use conpot.Guardian.Server.Names.{NamesFit, serve-NamesFit}
use conpot.Guardian.Server.Waiting.{gather-waits, gather-takes}

abbrev world : World
world = record {
  text = λ key. ok key;
  number = λ key. ok 1000;
  shown = λ key. ok (codes "12");
  randint = λ call low high. low;
  plus = λ t n. ok t;
  minus = λ t n. ok t;
  current_time = codes "01/01/2020 00:00";
  fill_start = codes "01/01/2020 00:00";
  fill_stop = codes "01/01/2020 00:00";
}

abbrev tank : Tank
tank = record {
  product = codes "SUPER                 ";
  vol = 1000;
  voltc = 1000;
  ullage = codes "12";
  height = codes "12000";
  h2o = codes "1200";
  temp = codes "12000";
}

abbrev connection : Connection
connection = record {
  tanks = record {
    tank1 = tank;
    tank2 = tank;
    tank3 = tank;
    tank4 = tank;
    station = codes "STATION";
  };
  sent = [];
  events = [];
}

-- ^A and the command in two pieces
abbrev pieces : List Bytes
pieces = (1 ∷ codes "S602") ∷ codes "01DIESEL\n" ∷ []

renamed : (serve world 3 pieces connection).1.tanks.tank1.product ≡ codes "DIESEL                "
unfolding serve ljust contains starts_with strip_right
renamed = refl

serve-NamesFit_example : NamesFit (serve world 3 pieces connection).1.tanks
serve-NamesFit_example = serve-NamesFit world 3 pieces connection (refl, refl, refl, refl)

never_complete : is_complete (codes "I20" ++ concat (codes "1" ∷ [])) ≡ false
unfolding is_complete concat contains starts_with
never_complete = refl

gather-waits_example : gather 9 (codes "I20") (codes "1" ∷ []) ≡ none
gather-waits_example = gather-waits 9 (codes "I20") (codes "1" ∷ []) never_complete

completes : is_complete (codes "I20" ++ concat (codes "100" ∷ [])) ≡ true
unfolding is_complete concat contains starts_with
completes = refl

gather-takes_example :
    (r : Bytes × List Bytes) × (gather 2 (codes "I20") (codes "100" ∷ []) ≡ some r)
    × (r.0 ++ concat r.1 ≡ codes "I20" ++ concat (codes "100" ∷ []))
    × (is_complete r.0 ≡ true)
    × (length r.1 ≤ 1)
gather-takes_example = gather-takes 2 (codes "I20") (codes "100" ∷ []) (omega arith) completes
