-- ===== src/Examples/PublishConsume.antt =====
-- html/examples/publish-consume-result.js, the results that sample.html shows.
use rabbitmq_perf_test.Base.{List, [], ◌∷◌, ◌++◌}
use rabbitmq_perf_test.Js.Number.{Number, of_ℕ}
use rabbitmq_perf_test.Js.Value.{Value, obj, end, field}
use rabbitmq_perf_test.Examples.Sample.{sample, totals}

module _ (N : Number) where
  abbrev pub consume_first : List (Value N)
  consume_first =
      sample N (of_ℕ N 1000) (of_ℕ N 10831) (of_ℕ N 344109) (of_ℕ N 481147) (of_ℕ N 0) (of_ℕ N 0)
        (of_ℕ N 25525) (of_ℕ N 41555)
      ∷ sample N (of_ℕ N 2000) (of_ℕ N 324270) (of_ℕ N 581294) (of_ℕ N 919427) (of_ℕ N 0) (of_ℕ N 0)
          (of_ℕ N 81015) (of_ℕ N 27456)
      ∷ sample N (of_ℕ N 3000) (of_ℕ N 246027) (of_ℕ N 598325) (of_ℕ N 938770) (of_ℕ N 0) (of_ℕ N 0)
          (of_ℕ N 75234) (of_ℕ N 50251)
      ∷ sample N (of_ℕ N 4000) (of_ℕ N 292759) (of_ℕ N 694935) (of_ℕ N 1089207) (of_ℕ N 0)
          (of_ℕ N 0) (of_ℕ N 67955) (of_ℕ N 31238)
      ∷ sample N (of_ℕ N 5000) (of_ℕ N 313928) (of_ℕ N 654321) (of_ℕ N 1126474) (of_ℕ N 0)
          (of_ℕ N 0) (of_ℕ N 79555) (of_ℕ N 39791)
      ∷ sample N (of_ℕ N 6000) (of_ℕ N 246833) (of_ℕ N 612579) (of_ℕ N 938298) (of_ℕ N 0) (of_ℕ N 0)
          (of_ℕ N 80401) (of_ℕ N 41569)
      ∷ sample N (of_ℕ N 7000) (of_ℕ N 242977) (of_ℕ N 629671) (of_ℕ N 964884) (of_ℕ N 0) (of_ℕ N 0)
          (of_ℕ N 79009) (of_ℕ N 35413)
      ∷ sample N (of_ℕ N 8000) (of_ℕ N 250176) (of_ℕ N 599386) (of_ℕ N 1021228) (of_ℕ N 0)
          (of_ℕ N 0) (of_ℕ N 79863) (of_ℕ N 43034)
      ∷ sample N (of_ℕ N 9000) (of_ℕ N 262995) (of_ℕ N 683879) (of_ℕ N 1041201) (of_ℕ N 0)
          (of_ℕ N 0) (of_ℕ N 77430) (of_ℕ N 38390)
      ∷ sample N (of_ℕ N 10000) (of_ℕ N 282887) (of_ℕ N 691081) (of_ℕ N 1017910) (of_ℕ N 0)
          (of_ℕ N 0) (of_ℕ N 78824) (of_ℕ N 38850)
      ∷ sample N (of_ℕ N 11000) (of_ℕ N 355605) (of_ℕ N 677808) (of_ℕ N 998448) (of_ℕ N 0)
          (of_ℕ N 0) (of_ℕ N 78293) (of_ℕ N 45018)
      ∷ sample N (of_ℕ N 12000) (of_ℕ N 287187) (of_ℕ N 687659) (of_ℕ N 1021045) (of_ℕ N 0)
          (of_ℕ N 0) (of_ℕ N 79616) (of_ℕ N 36488)
      ∷ sample N (of_ℕ N 13000) (of_ℕ N 322292) (of_ℕ N 708035) (of_ℕ N 1070177) (of_ℕ N 0)
          (of_ℕ N 0) (of_ℕ N 74658) (of_ℕ N 33796)
      ∷ sample N (of_ℕ N 14000) (of_ℕ N 296134) (of_ℕ N 681037) (of_ℕ N 1048146) (of_ℕ N 0)
          (of_ℕ N 0) (of_ℕ N 83257) (of_ℕ N 46015)
      ∷ sample N (of_ℕ N 15000) (of_ℕ N 316970) (of_ℕ N 667661) (of_ℕ N 982125) (of_ℕ N 0)
          (of_ℕ N 0) (of_ℕ N 83616) (of_ℕ N 40711)
      ∷ []

  abbrev pub consume_rest : List (Value N)
  consume_rest =
      sample N (of_ℕ N 16000) (of_ℕ N 310096) (of_ℕ N 679488) (of_ℕ N 942568) (of_ℕ N 0) (of_ℕ N 0)
        (of_ℕ N 83500) (of_ℕ N 39742)
      ∷ sample N (of_ℕ N 17000) (of_ℕ N 296791) (of_ℕ N 646707) (of_ℕ N 956717) (of_ℕ N 0)
          (of_ℕ N 0) (of_ℕ N 85757) (of_ℕ N 45611)
      ∷ sample N (of_ℕ N 18000) (of_ℕ N 280591) (of_ℕ N 646240) (of_ℕ N 942572) (of_ℕ N 0)
          (of_ℕ N 0) (of_ℕ N 82238) (of_ℕ N 45450)
      ∷ sample N (of_ℕ N 19000) (of_ℕ N 304554) (of_ℕ N 670038) (of_ℕ N 989710) (of_ℕ N 0)
          (of_ℕ N 0) (of_ℕ N 86908) (of_ℕ N 37845)
      ∷ sample N (of_ℕ N 20000) (of_ℕ N 280710) (of_ℕ N 642280) (of_ℕ N 974080) (of_ℕ N 0)
          (of_ℕ N 0) (of_ℕ N 83287) (of_ℕ N 44878)
      ∷ sample N (of_ℕ N 21000) (of_ℕ N 293631) (of_ℕ N 675358) (of_ℕ N 948192) (of_ℕ N 0)
          (of_ℕ N 0) (of_ℕ N 86142) (of_ℕ N 37921)
      ∷ sample N (of_ℕ N 22000) (of_ℕ N 305420) (of_ℕ N 648977) (of_ℕ N 960673) (of_ℕ N 0)
          (of_ℕ N 0) (of_ℕ N 84312) (of_ℕ N 46571)
      ∷ sample N (of_ℕ N 23000) (of_ℕ N 372320) (of_ℕ N 688279) (of_ℕ N 968367) (of_ℕ N 0)
          (of_ℕ N 0) (of_ℕ N 80490) (of_ℕ N 40749)
      ∷ sample N (of_ℕ N 24000) (of_ℕ N 291480) (of_ℕ N 690524) (of_ℕ N 1002563) (of_ℕ N 0)
          (of_ℕ N 0) (of_ℕ N 83222) (of_ℕ N 43503)
      ∷ sample N (of_ℕ N 25000) (of_ℕ N 310363) (of_ℕ N 726413) (of_ℕ N 1091691) (of_ℕ N 0)
          (of_ℕ N 0) (of_ℕ N 72869) (of_ℕ N 32517)
      ∷ sample N (of_ℕ N 26000) (of_ℕ N 294528) (of_ℕ N 698197) (of_ℕ N 1138198) (of_ℕ N 0)
          (of_ℕ N 0) (of_ℕ N 84989) (of_ℕ N 41704)
      ∷ sample N (of_ℕ N 27000) (of_ℕ N 398793) (of_ℕ N 676291) (of_ℕ N 915914) (of_ℕ N 0)
          (of_ℕ N 0) (of_ℕ N 84658) (of_ℕ N 44312)
      ∷ sample N (of_ℕ N 28000) (of_ℕ N 289413) (of_ℕ N 694085) (of_ℕ N 967861) (of_ℕ N 0)
          (of_ℕ N 0) (of_ℕ N 76494) (of_ℕ N 37440)
      ∷ sample N (of_ℕ N 29000) (of_ℕ N 324074) (of_ℕ N 729880) (of_ℕ N 1031508) (of_ℕ N 0)
          (of_ℕ N 0) (of_ℕ N 81350) (of_ℕ N 40867)
      ∷ sample N (of_ℕ N 30000) (of_ℕ N 306803) (of_ℕ N 700724) (of_ℕ N 983123) (of_ℕ N 0)
          (of_ℕ N 0) (of_ℕ N 78822) (of_ℕ N 40553)
      ∷ []

  abbrev pub consume : Value N
  consume =
      totals N (consume_first ++ consume_rest) (of_ℕ N 673031) (of_ℕ N 0) (of_ℕ N 0)
        (N.decimal 8177303846153847 11) (N.decimal 40820692307692305 12)

  -- The whole file.
  abbrev pub publish_consume : Value N
  publish_consume = obj (field "consume" consume end)
