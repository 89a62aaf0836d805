-- ===== src/Examples/NoAck.antt =====
-- The scenario "no-ack" of html/examples/various-result.js.
use rabbitmq_perf_test.Base.{List, [], ◌∷◌, ◌++◌}
use rabbitmq_perf_test.Js.Number.{Number, of_ℕ}
use rabbitmq_perf_test.Js.Value.{Value}
use rabbitmq_perf_test.Examples.Sample.{sample, totals}

module _ (N : Number) where
  abbrev pub no_ack_first : List (Value N)
  no_ack_first =
      sample N (of_ℕ N 1000) (of_ℕ N 372) (of_ℕ N 60881) (of_ℕ N 183302) (of_ℕ N 0) (of_ℕ N 0)
        (of_ℕ N 20796) (of_ℕ N 24175)
      ∷ sample N (of_ℕ N 2000) (of_ℕ N 83279) (of_ℕ N 167979) (of_ℕ N 258902) (of_ℕ N 0) (of_ℕ N 0)
          (of_ℕ N 33745) (of_ℕ N 34775)
      ∷ sample N (of_ℕ N 3000) (of_ℕ N 82969) (of_ℕ N 162993) (of_ℕ N 243356) (of_ℕ N 0) (of_ℕ N 0)
          (of_ℕ N 34882) (of_ℕ N 35699)
      ∷ sample N (of_ℕ N 4000) (of_ℕ N 80743) (of_ℕ N 159148) (of_ℕ N 245090) (of_ℕ N 0) (of_ℕ N 0)
          (of_ℕ N 35381) (of_ℕ N 33316)
      ∷ sample N (of_ℕ N 5000) (of_ℕ N 77431) (of_ℕ N 154374) (of_ℕ N 243502) (of_ℕ N 0) (of_ℕ N 0)
          (of_ℕ N 35301) (of_ℕ N 36983)
      ∷ sample N (of_ℕ N 6000) (of_ℕ N 82761) (of_ℕ N 162797) (of_ℕ N 256320) (of_ℕ N 0) (of_ℕ N 0)
          (of_ℕ N 34774) (of_ℕ N 33376)
      ∷ sample N (of_ℕ N 7000) (of_ℕ N 77502) (of_ℕ N 153741) (of_ℕ N 250406) (of_ℕ N 0) (of_ℕ N 0)
          (of_ℕ N 35262) (of_ℕ N 39058)
      ∷ sample N (of_ℕ N 8000) (of_ℕ N 78710) (of_ℕ N 168456) (of_ℕ N 255521) (of_ℕ N 0) (of_ℕ N 0)
          (of_ℕ N 34865) (of_ℕ N 33549)
      ∷ sample N (of_ℕ N 9000) (of_ℕ N 79674) (of_ℕ N 155406) (of_ℕ N 252721) (of_ℕ N 0) (of_ℕ N 0)
          (of_ℕ N 35440) (of_ℕ N 37209)
      ∷ sample N (of_ℕ N 10001) (of_ℕ N 76467) (of_ℕ N 163776) (of_ℕ N 250056) (of_ℕ N 0) (of_ℕ N 0)
          (N.decimal 3532367632367632 11) (N.decimal 3328471528471528 11)
      ∷ sample N (of_ℕ N 11001) (of_ℕ N 79708) (of_ℕ N 162155) (of_ℕ N 257475) (of_ℕ N 0) (of_ℕ N 0)
          (of_ℕ N 35885) (of_ℕ N 33318)
      ∷ sample N (of_ℕ N 12001) (of_ℕ N 79682) (of_ℕ N 164013) (of_ℕ N 245918) (of_ℕ N 0) (of_ℕ N 0)
          (of_ℕ N 35847) (of_ℕ N 39249)
      ∷ sample N (of_ℕ N 13001) (of_ℕ N 79466) (of_ℕ N 159659) (of_ℕ N 246988) (of_ℕ N 0) (of_ℕ N 0)
          (of_ℕ N 35726) (of_ℕ N 34906)
      ∷ sample N (of_ℕ N 14001) (of_ℕ N 72091) (of_ℕ N 149274) (of_ℕ N 244760) (of_ℕ N 0) (of_ℕ N 0)
          (of_ℕ N 36490) (of_ℕ N 37283)
      ∷ sample N (of_ℕ N 15001) (of_ℕ N 80876) (of_ℕ N 161755) (of_ℕ N 255657) (of_ℕ N 0) (of_ℕ N 0)
          (of_ℕ N 35788) (of_ℕ N 33318)
      ∷ []

  abbrev pub no_ack_rest : List (Value N)
  no_ack_rest =
      sample N (of_ℕ N 16001) (of_ℕ N 80607) (of_ℕ N 166443) (of_ℕ N 253020) (of_ℕ N 0) (of_ℕ N 0)
        (of_ℕ N 35110) (of_ℕ N 36639)
      ∷ sample N (of_ℕ N 17001) (of_ℕ N 75000) (of_ℕ N 154067) (of_ℕ N 243973) (of_ℕ N 0) (of_ℕ N 0)
          (of_ℕ N 37201) (of_ℕ N 35818)
      ∷ sample N (of_ℕ N 18001) (of_ℕ N 73419) (of_ℕ N 159445) (of_ℕ N 241568) (of_ℕ N 0) (of_ℕ N 0)
          (of_ℕ N 36296) (of_ℕ N 37454)
      ∷ sample N (of_ℕ N 19001) (of_ℕ N 77249) (of_ℕ N 160873) (of_ℕ N 258762) (of_ℕ N 0) (of_ℕ N 0)
          (of_ℕ N 35845) (of_ℕ N 38560)
      ∷ sample N (of_ℕ N 20001) (of_ℕ N 77983) (of_ℕ N 152365) (of_ℕ N 241926) (of_ℕ N 0) (of_ℕ N 0)
          (of_ℕ N 35994) (of_ℕ N 35422)
      ∷ sample N (of_ℕ N 21001) (of_ℕ N 73116) (of_ℕ N 159968) (of_ℕ N 260359) (of_ℕ N 0) (of_ℕ N 0)
          (of_ℕ N 35325) (of_ℕ N 35421)
      ∷ sample N (of_ℕ N 22001) (of_ℕ N 75628) (of_ℕ N 151671) (of_ℕ N 246299) (of_ℕ N 0) (of_ℕ N 0)
          (of_ℕ N 35192) (of_ℕ N 36070)
      ∷ sample N (of_ℕ N 23001) (of_ℕ N 80235) (of_ℕ N 158621) (of_ℕ N 254919) (of_ℕ N 0) (of_ℕ N 0)
          (of_ℕ N 35921) (of_ℕ N 33318)
      ∷ sample N (of_ℕ N 24001) (of_ℕ N 75801) (of_ℕ N 159468) (of_ℕ N 250895) (of_ℕ N 0) (of_ℕ N 0)
          (of_ℕ N 35616) (of_ℕ N 35420)
      ∷ sample N (of_ℕ N 25001) (of_ℕ N 73075) (of_ℕ N 160616) (of_ℕ N 249490) (of_ℕ N 0) (of_ℕ N 0)
          (of_ℕ N 35260) (of_ℕ N 33826)
      ∷ sample N (of_ℕ N 26001) (of_ℕ N 95227) (of_ℕ N 197869) (of_ℕ N 333365) (of_ℕ N 0) (of_ℕ N 0)
          (of_ℕ N 29961) (of_ℕ N 30706)
      ∷ sample N (of_ℕ N 27001) (of_ℕ N 86491) (of_ℕ N 173571) (of_ℕ N 277742) (of_ℕ N 0) (of_ℕ N 0)
          (of_ℕ N 32947) (of_ℕ N 33316)
      ∷ sample N (of_ℕ N 28001) (of_ℕ N 84060) (of_ℕ N 178207) (of_ℕ N 269778) (of_ℕ N 0) (of_ℕ N 0)
          (of_ℕ N 32131) (of_ℕ N 33315)
      ∷ sample N (of_ℕ N 29001) (of_ℕ N 86603) (of_ℕ N 180531) (of_ℕ N 280184) (of_ℕ N 0) (of_ℕ N 0)
          (of_ℕ N 31706) (of_ℕ N 31864)
      ∷ sample N (of_ℕ N 30001) (of_ℕ N 87769) (of_ℕ N 178115) (of_ℕ N 287858) (of_ℕ N 0) (of_ℕ N 0)
          (of_ℕ N 32651) (of_ℕ N 33318)
      ∷ []

  abbrev pub no_ack : Value N
  no_ack =
      totals N (no_ack_first ++ no_ack_rest) (of_ℕ N 163089) (of_ℕ N 0) (of_ℕ N 0)
        (N.decimal 3519849236567824 11) (N.decimal 3507692011845698 11)
