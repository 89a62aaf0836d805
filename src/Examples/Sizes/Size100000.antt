-- ===== src/Examples/Sizes/Size100000.antt =====
-- The results at messages of 100000 bytes.
use rabbitmq_perf_test.Base.{List, [], ◌∷◌, ◌++◌}
use rabbitmq_perf_test.Js.Number.{Number, of_ℕ}
use rabbitmq_perf_test.Js.Value.{Value}
use rabbitmq_perf_test.Examples.Sample.{sample, totals}

module _ (N : Number) where
  abbrev pub size_100000_first : List (Value N)
  size_100000_first =
      sample N (of_ℕ N 1028) (of_ℕ N 297) (of_ℕ N 3159) (of_ℕ N 194645)
        (N.decimal 2877431906614786 7) (N.decimal 2880350194552529 7)
        (N.decimal 2877431906614786 12) (N.decimal 2880350194552529 12)
      ∷ sample N (of_ℕ N 2137) (of_ℕ N 282) (of_ℕ N 2824) (of_ℕ N 198442)
          (N.decimal 5560865644724978 7) (N.decimal 5560865644724978 7)
          (N.decimal 5560865644724978 12) (N.decimal 5560865644724978 12)
      ∷ sample N (of_ℕ N 3137) (of_ℕ N 282) (of_ℕ N 2800) (of_ℕ N 192354) (of_ℕ N 671900000)
          (of_ℕ N 679400000) (of_ℕ N 6719) (of_ℕ N 6794)
      ∷ sample N (of_ℕ N 4137) (of_ℕ N 275) (of_ℕ N 2778) (of_ℕ N 7686) (of_ℕ N 1006200000)
          (of_ℕ N 1000200000) (of_ℕ N 10062) (of_ℕ N 10002)
      ∷ sample N (of_ℕ N 5137) (of_ℕ N 282) (of_ℕ N 2624) (of_ℕ N 7673) (of_ℕ N 980200000)
          (of_ℕ N 983000000) (of_ℕ N 9802) (of_ℕ N 9830)
      ∷ sample N (of_ℕ N 6137) (of_ℕ N 292) (of_ℕ N 2381) (of_ℕ N 7390) (of_ℕ N 982800000)
          (of_ℕ N 983500000) (of_ℕ N 9828) (of_ℕ N 9835)
      ∷ sample N (of_ℕ N 7137) (of_ℕ N 281) (of_ℕ N 3162) (of_ℕ N 10507) (of_ℕ N 968300000)
          (of_ℕ N 964200000) (of_ℕ N 9683) (of_ℕ N 9642)
      ∷ sample N (of_ℕ N 8137) (of_ℕ N 330) (of_ℕ N 2477) (of_ℕ N 8243) (of_ℕ N 892300000)
          (of_ℕ N 892400000) (of_ℕ N 8923) (of_ℕ N 8924)
      ∷ sample N (of_ℕ N 9137) (of_ℕ N 318) (of_ℕ N 2778) (of_ℕ N 7607) (of_ℕ N 863500000)
          (of_ℕ N 866900000) (of_ℕ N 8635) (of_ℕ N 8669)
      ∷ sample N (of_ℕ N 10137) (of_ℕ N 315) (of_ℕ N 3168) (of_ℕ N 9302) (of_ℕ N 866800000)
          (of_ℕ N 865200000) (of_ℕ N 8668) (of_ℕ N 8652)
      ∷ sample N (of_ℕ N 11137) (of_ℕ N 305) (of_ℕ N 3178) (of_ℕ N 9037) (of_ℕ N 884000000)
          (of_ℕ N 883900000) (of_ℕ N 8840) (of_ℕ N 8839)
      ∷ sample N (of_ℕ N 12137) (of_ℕ N 329) (of_ℕ N 2586) (of_ℕ N 8592) (of_ℕ N 887500000)
          (of_ℕ N 888900000) (of_ℕ N 8875) (of_ℕ N 8889)
      ∷ sample N (of_ℕ N 13137) (of_ℕ N 326) (of_ℕ N 3056) (of_ℕ N 9661) (of_ℕ N 903800000)
          (of_ℕ N 904700000) (of_ℕ N 9038) (of_ℕ N 9047)
      ∷ sample N (of_ℕ N 14137) (of_ℕ N 300) (of_ℕ N 3182) (of_ℕ N 8767) (of_ℕ N 942200000)
          (of_ℕ N 940400000) (of_ℕ N 9422) (of_ℕ N 9404)
      ∷ sample N (of_ℕ N 15137) (of_ℕ N 308) (of_ℕ N 2611) (of_ℕ N 8385) (of_ℕ N 909600000)
          (of_ℕ N 906400000) (of_ℕ N 9096) (of_ℕ N 9064)
      ∷ []

  abbrev pub size_100000_rest : List (Value N)
  size_100000_rest =
      sample N (of_ℕ N 16137) (of_ℕ N 310) (of_ℕ N 2995) (of_ℕ N 10343) (of_ℕ N 919200000)
        (of_ℕ N 922400000) (of_ℕ N 9192) (of_ℕ N 9224)
      ∷ sample N (of_ℕ N 17137) (of_ℕ N 327) (of_ℕ N 2966) (of_ℕ N 8395) (of_ℕ N 902200000)
          (of_ℕ N 899800000) (of_ℕ N 9022) (of_ℕ N 8998)
      ∷ sample N (of_ℕ N 18137) (of_ℕ N 324) (of_ℕ N 2338) (of_ℕ N 8528) (of_ℕ N 894600000)
          (of_ℕ N 900300000) (of_ℕ N 8946) (of_ℕ N 9003)
      ∷ sample N (of_ℕ N 19137) (of_ℕ N 325) (of_ℕ N 3093) (of_ℕ N 9393) (of_ℕ N 924400000)
          (of_ℕ N 922900000) (of_ℕ N 9244) (of_ℕ N 9229)
      ∷ sample N (of_ℕ N 20137) (of_ℕ N 312) (of_ℕ N 2752) (of_ℕ N 9283) (of_ℕ N 909000000)
          (of_ℕ N 905000000) (of_ℕ N 9090) (of_ℕ N 9050)
      ∷ sample N (of_ℕ N 21137) (of_ℕ N 295) (of_ℕ N 2891) (of_ℕ N 8990) (of_ℕ N 941300000)
          (of_ℕ N 940300000) (of_ℕ N 9413) (of_ℕ N 9403)
      ∷ sample N (of_ℕ N 22137) (of_ℕ N 305) (of_ℕ N 2771) (of_ℕ N 9231) (of_ℕ N 901300000)
          (of_ℕ N 906300000) (of_ℕ N 9013) (of_ℕ N 9063)
      ∷ sample N (of_ℕ N 23137) (of_ℕ N 317) (of_ℕ N 3088) (of_ℕ N 9399) (of_ℕ N 907600000)
          (of_ℕ N 907500000) (of_ℕ N 9076) (of_ℕ N 9075)
      ∷ sample N (of_ℕ N 24137) (of_ℕ N 334) (of_ℕ N 3296) (of_ℕ N 10807) (of_ℕ N 897200000)
          (of_ℕ N 895400000) (of_ℕ N 8972) (of_ℕ N 8954)
      ∷ sample N (of_ℕ N 25137) (of_ℕ N 315) (of_ℕ N 2836) (of_ℕ N 8140) (of_ℕ N 911900000)
          (of_ℕ N 910100000) (of_ℕ N 9119) (of_ℕ N 9101)
      ∷ sample N (of_ℕ N 26137) (of_ℕ N 310) (of_ℕ N 2860) (of_ℕ N 8117) (of_ℕ N 940100000)
          (of_ℕ N 941700000) (of_ℕ N 9401) (of_ℕ N 9417)
      ∷ sample N (of_ℕ N 27137) (of_ℕ N 326) (of_ℕ N 3387) (of_ℕ N 10758) (of_ℕ N 919600000)
          (of_ℕ N 918200000) (of_ℕ N 9196) (of_ℕ N 9182)
      ∷ sample N (of_ℕ N 28137) (of_ℕ N 312) (of_ℕ N 2696) (of_ℕ N 7346) (of_ℕ N 899100000)
          (of_ℕ N 899200000) (of_ℕ N 8991) (of_ℕ N 8992)
      ∷ sample N (of_ℕ N 29137) (of_ℕ N 325) (of_ℕ N 2541) (of_ℕ N 6834) (of_ℕ N 904800000)
          (of_ℕ N 903400000) (of_ℕ N 9048) (of_ℕ N 9034)
      ∷ []

  abbrev pub size_100000 : Value N
  size_100000 =
      totals N (size_100000_first ++ size_100000_rest) (of_ℕ N 2885) (N.decimal 9462040000000001 7)
        (of_ℕ N 946132000) (N.decimal 946204 2) (N.decimal 946132 2)
