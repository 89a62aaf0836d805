-- ===== src/Examples/Sizes/Size50000.antt =====
-- The results at messages of 50000 bytes.
use rabbitmq_perf_test.Base.{List, [], ◌∷◌, ◌++◌}
use rabbitmq_perf_test.Js.Number.{Number, of_ℕ}
use rabbitmq_perf_test.Js.Value.{Value}
use rabbitmq_perf_test.Examples.Sample.{sample, totals}

module _ (N : Number) where
  abbrev pub size_50000_first : List (Value N)
  size_50000_first =
      sample N (of_ℕ N 1070) (of_ℕ N 264) (of_ℕ N 2248) (of_ℕ N 198510)
        (N.decimal 4438317757009346 7) (N.decimal 4440654205607477 7)
        (N.decimal 8876635514018692 12) (N.decimal 8881308411214954 12)
      ∷ sample N (of_ℕ N 2070) (of_ℕ N 230) (of_ℕ N 2079) (of_ℕ N 160645) (of_ℕ N 640350000)
          (of_ℕ N 642650000) (of_ℕ N 12807) (of_ℕ N 12853)
      ∷ sample N (of_ℕ N 3185) (of_ℕ N 243) (of_ℕ N 1955) (of_ℕ N 187749)
          (N.decimal 5528251121076233 7) (N.decimal 550762331838565 6)
          (N.decimal 11056502242152466 12) (N.decimal 110152466367713 10)
      ∷ sample N (of_ℕ N 4185) (of_ℕ N 225) (of_ℕ N 2269) (of_ℕ N 194616) (of_ℕ N 531600000)
          (of_ℕ N 532350000) (of_ℕ N 10632) (of_ℕ N 10647)
      ∷ sample N (of_ℕ N 5185) (of_ℕ N 226) (of_ℕ N 1871) (of_ℕ N 140111) (of_ℕ N 552650000)
          (of_ℕ N 553200000) (of_ℕ N 11053) (of_ℕ N 11064)
      ∷ sample N (of_ℕ N 6185) (of_ℕ N 210) (of_ℕ N 1681) (of_ℕ N 4670) (of_ℕ N 790850000)
          (of_ℕ N 789800000) (of_ℕ N 15817) (of_ℕ N 15796)
      ∷ sample N (of_ℕ N 7185) (of_ℕ N 261) (of_ℕ N 1973) (of_ℕ N 6772) (of_ℕ N 717900000)
          (of_ℕ N 717600000) (of_ℕ N 14358) (of_ℕ N 14352)
      ∷ sample N (of_ℕ N 8185) (of_ℕ N 275) (of_ℕ N 2314) (of_ℕ N 7886) (of_ℕ N 693400000)
          (of_ℕ N 696400000) (of_ℕ N 13868) (of_ℕ N 13928)
      ∷ sample N (of_ℕ N 9185) (of_ℕ N 262) (of_ℕ N 2087) (of_ℕ N 8264) (of_ℕ N 679300000)
          (of_ℕ N 677250000) (of_ℕ N 13586) (of_ℕ N 13545)
      ∷ sample N (of_ℕ N 10185) (of_ℕ N 286) (of_ℕ N 2306) (of_ℕ N 8601) (of_ℕ N 683500000)
          (of_ℕ N 684250000) (of_ℕ N 13670) (of_ℕ N 13685)
      ∷ sample N (of_ℕ N 11185) (of_ℕ N 252) (of_ℕ N 1908) (of_ℕ N 6884) (of_ℕ N 691550000)
          (of_ℕ N 692850000) (of_ℕ N 13831) (of_ℕ N 13857)
      ∷ sample N (of_ℕ N 12185) (of_ℕ N 265) (of_ℕ N 1863) (of_ℕ N 7662) (of_ℕ N 702800000)
          (of_ℕ N 701800000) (of_ℕ N 14056) (of_ℕ N 14036)
      ∷ sample N (of_ℕ N 13185) (of_ℕ N 267) (of_ℕ N 2227) (of_ℕ N 6063) (of_ℕ N 702900000)
          (of_ℕ N 703050000) (of_ℕ N 14058) (of_ℕ N 14061)
      ∷ sample N (of_ℕ N 14185) (of_ℕ N 285) (of_ℕ N 2097) (of_ℕ N 7526) (of_ℕ N 709150000)
          (of_ℕ N 707550000) (of_ℕ N 14183) (of_ℕ N 14151)
      ∷ sample N (of_ℕ N 15185) (of_ℕ N 268) (of_ℕ N 2148) (of_ℕ N 6805) (of_ℕ N 696850000)
          (of_ℕ N 697850000) (of_ℕ N 13937) (of_ℕ N 13957)
      ∷ []

  abbrev pub size_50000_rest : List (Value N)
  size_50000_rest =
      sample N (of_ℕ N 16185) (of_ℕ N 274) (of_ℕ N 2068) (of_ℕ N 7620) (of_ℕ N 706350000)
        (of_ℕ N 705050000) (of_ℕ N 14127) (of_ℕ N 14101)
      ∷ sample N (of_ℕ N 17185) (of_ℕ N 248) (of_ℕ N 2199) (of_ℕ N 7240) (of_ℕ N 726600000)
          (of_ℕ N 726800000) (of_ℕ N 14532) (of_ℕ N 14536)
      ∷ sample N (of_ℕ N 18185) (of_ℕ N 253) (of_ℕ N 2270) (of_ℕ N 8382) (of_ℕ N 718100000)
          (of_ℕ N 720850000) (of_ℕ N 14362) (of_ℕ N 14417)
      ∷ sample N (of_ℕ N 19185) (of_ℕ N 258) (of_ℕ N 1882) (of_ℕ N 5724) (of_ℕ N 705800000)
          (of_ℕ N 704700000) (of_ℕ N 14116) (of_ℕ N 14094)
      ∷ sample N (of_ℕ N 20185) (of_ℕ N 280) (of_ℕ N 2309) (of_ℕ N 8191) (of_ℕ N 711300000)
          (of_ℕ N 709300000) (of_ℕ N 14226) (of_ℕ N 14186)
      ∷ sample N (of_ℕ N 21185) (of_ℕ N 277) (of_ℕ N 2209) (of_ℕ N 7658) (of_ℕ N 703050000)
          (of_ℕ N 704100000) (of_ℕ N 14061) (of_ℕ N 14082)
      ∷ sample N (of_ℕ N 22185) (of_ℕ N 245) (of_ℕ N 2178) (of_ℕ N 9002) (of_ℕ N 701550000)
          (of_ℕ N 701350000) (of_ℕ N 14031) (of_ℕ N 14027)
      ∷ sample N (of_ℕ N 23185) (of_ℕ N 268) (of_ℕ N 2085) (of_ℕ N 8031) (of_ℕ N 699650000)
          (of_ℕ N 699900000) (of_ℕ N 13993) (of_ℕ N 13998)
      ∷ sample N (of_ℕ N 24185) (of_ℕ N 278) (of_ℕ N 1902) (of_ℕ N 5729) (of_ℕ N 677800000)
          (of_ℕ N 678200000) (of_ℕ N 13556) (of_ℕ N 13564)
      ∷ sample N (of_ℕ N 25185) (of_ℕ N 247) (of_ℕ N 2041) (of_ℕ N 6940) (of_ℕ N 703750000)
          (of_ℕ N 704500000) (of_ℕ N 14075) (of_ℕ N 14090)
      ∷ sample N (of_ℕ N 26185) (of_ℕ N 285) (of_ℕ N 1851) (of_ℕ N 5719) (of_ℕ N 694300000)
          (of_ℕ N 694950000) (of_ℕ N 13886) (of_ℕ N 13899)
      ∷ sample N (of_ℕ N 27185) (of_ℕ N 264) (of_ℕ N 2209) (of_ℕ N 10404) (of_ℕ N 724200000)
          (of_ℕ N 722400000) (of_ℕ N 14484) (of_ℕ N 14448)
      ∷ sample N (of_ℕ N 28185) (of_ℕ N 261) (of_ℕ N 1880) (of_ℕ N 6353) (of_ℕ N 708950000)
          (of_ℕ N 709350000) (of_ℕ N 14179) (of_ℕ N 14187)
      ∷ sample N (of_ℕ N 29185) (of_ℕ N 280) (of_ℕ N 2124) (of_ℕ N 9101) (of_ℕ N 703350000)
          (of_ℕ N 706650000) (of_ℕ N 14067) (of_ℕ N 14133)
      ∷ []

  abbrev pub size_50000 : Value N
  size_50000 =
      totals N (size_50000_first ++ size_50000_rest) (of_ℕ N 2068) (of_ℕ N 723704000)
        (of_ℕ N 723692000) (N.decimal 1447408 2) (N.decimal 1447384 2)
