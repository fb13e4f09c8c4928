-- ===== src/Hash.antt =====
-- utils/Hash.h: `hashUpdate` and its table.
pub mod Laws
mod Tests
use Prim.Native.Nat.{bit_xor}
use network_demo.Base.{
  ℕ, zero, suc, ◌+◌, ◌*◌, ◌/◌, ◌%◌, ◌^◌, List, [], ◌∷◌, Option, none, some, get_elem?,
}
use network_demo.Base.Words.{add_size}

pub rtab : List ℕ
rtab =
    0x38e93aa9b144bda2 ∷ 0x960917d2c2c1a2d0 ∷ 0xf987068e080f6339 ∷ 0x139e10904dcb1856
    ∷ 0x7029b32ef8239339 ∷ 0x0d6a94af0cfb711d ∷ 0xec0422c8cc82d12b ∷ 0x70392b5093b173a2
    ∷ 0x637f4a9d67c3c0a3 ∷ 0x09226c20ecc6885a ∷ 0xfe49eb4221257862 ∷ 0x2ea7c523885360bc
    ∷ 0x8922bfdd63006621 ∷ 0x1b0315c2684a49a9 ∷ 0xc61b4dff533d206b ∷ 0xa4a7e43d0b89546e
    ∷ 0xa390266affbb3837 ∷ 0x6d6886f58151a639 ∷ 0x2ee2672ca133cf9b ∷ 0x54cca6168348e870
    ∷ 0x02dfa91a9eaf386d ∷ 0x6167b087708dceea ∷ 0x32ce1c94f6b8b629 ∷ 0x3711df620fab88a4
    ∷ 0x30df957f6c268277 ∷ 0x8d0811ad76a1765f ∷ 0x726cdf6dc3f62957 ∷ 0x08b122af8a124ba3
    ∷ 0xafecd2cf94c15335 ∷ 0xd85e198ec42019fc ∷ 0x318d432b821cce6e ∷ 0xdc66b013eac54b21
    ∷ 0x4da099b1d5b381ee ∷ 0xd0ec9887c7c159e8 ∷ 0xe643b3c100c5bd8e ∷ 0x11679c279eea9542
    ∷ 0x79307576c04587ae ∷ 0x1c3d6b927f5dcb24 ∷ 0x88a749f6f1028f81 ∷ 0x2e52e4ef7160f5bb
    ∷ 0x7871571894d2390a ∷ 0xe29beda4c83c9f22 ∷ 0x05abfaa357eafd1b ∷ 0x41cce392870da74a
    ∷ 0x54d54e9a89d25107 ∷ 0x8d885bec0eb940a4 ∷ 0x7e8dcd59db7c1c6b ∷ 0x6e544e221f45d52f
    ∷ 0xcadad836ba5a6621 ∷ 0x2380667566cee47a ∷ 0x4c1950bb9d82c110 ∷ 0x9bd20af21a3cb1f5
    ∷ 0x446ba4097169e713 ∷ 0x927900c45d977949 ∷ 0x8c73f7ab277dc9c8 ∷ 0x1f276e404ed3feb1
    ∷ 0x41624f650031f6c7 ∷ 0xc3d6e42e585738e0 ∷ 0x31b23c2e74df754c ∷ 0x2af6c864c05b00f4
    ∷ 0xef8bec1ef5c7590f ∷ 0xf74402cf08a5a942 ∷ 0xec6ad8cc8597f50a ∷ 0x6adf839bd7199372
    ∷ 0x0ed0a820ae765b3a ∷ 0x782ea4816103f2f0 ∷ 0xad5c00e730737bf7 ∷ 0xeb1930ab40d6c44e
    ∷ 0xd65706f13fa89b30 ∷ 0x525cc03bf4841bc0 ∷ 0x653dda543926d3e5 ∷ 0xd131996597bd2db3
    ∷ 0x1bb33a368ef16469 ∷ 0xc45894961ab0470c ∷ 0x8585109d0fb64906 ∷ 0xa1a7a52cfb6a0a65
    ∷ 0xe8c284f9e1fc3ca2 ∷ 0x4ff686fbfe3ce189 ∷ 0x589d846738ce23f8 ∷ 0x2ccc227b87af7a12
    ∷ 0xc98b627e12d4d12b ∷ 0xae3e79716fe577b7 ∷ 0xe481746f9105f438 ∷ 0x0231d7a24605f4d9
    ∷ 0xf6741586635cdb96 ∷ 0xb6b92cc84984cbcc ∷ 0xf3c15be1bee6e1bd ∷ 0xa3e74eb443d5c2c5
    ∷ 0xcf64bd38c1f562cc ∷ 0xa5b55d41dae7b3c7 ∷ 0x23e4f9292db71b7a ∷ 0x7acefe7ff78726db
    ∷ 0xe3bad26d00139aed ∷ 0xbf117f0e55f66eea ∷ 0xdb9fdd2cb7c8f54c ∷ 0xeff80c9d3fa7632f
    ∷ 0xf65b20ed600a9f93 ∷ 0x9035286e23bbbb7b ∷ 0x95b4d683436a9960 ∷ 0x513ee19b6a998a61
    ∷ 0xc8d1bfa8efb7c349 ∷ 0xc2fe99159fc54f97 ∷ 0x2c9be8d78112eb8e ∷ 0xf1dfe85001df69ac
    ∷ 0xe1c5ffa79fdb7509 ∷ 0x0df86932fc8c065c ∷ 0xa5fd79b43e358bb6 ∷ 0x62e76a41497a1c83
    ∷ 0x497094311b616305 ∷ 0x42c0c69ceb7ced38 ∷ 0x4eb35222f6e67f4f ∷ 0x29fceb11c4ac91a9
    ∷ 0xd1a3157f5d439627 ∷ 0xc293c7efda956725 ∷ 0x8e9f34f743f822ad ∷ 0xa2e9957e3fb6eaf5
    ∷ 0xb98c5ca900968076 ∷ 0x7e0d0617aadbb3e7 ∷ 0x7fff8303fd0da04c ∷ 0x1bf2358b93c9004b
    ∷ 0xc8966a3137ab2552 ∷ 0x77e24d735ba78048 ∷ 0x7e3e8fe06e551bdc ∷ 0xa4e9f7669bba1340
    ∷ 0x31c759d0d1be0042 ∷ 0x43ea570762218186 ∷ 0x49d9b40a84cd0707 ∷ 0xbcf962b0be3eb7ae
    ∷ 0xa5813cfbcfb67040 ∷ 0x95dfba755ee6b89b ∷ 0x2a4fa918c541925b ∷ 0x562b5d3c7e2c36e7
    ∷ 0xec5da7d3f5c3d3c4 ∷ 0x8672c470cf03ef22 ∷ 0x9a7b152ed20a4d57 ∷ 0x512483e9f32ca9fa
    ∷ 0x01bdac76a9a83024 ∷ 0x68f13c4a3593461b ∷ 0xd45e43ff6633b183 ∷ 0x0771997d58073d02
    ∷ 0x6809f97e5c4d5af1 ∷ 0x406ee033ec764ccc ∷ 0x9f155e0da508644b ∷ 0xc80087adb53c0c40
    ∷ 0xd1828201df399ccc ∷ 0x22a0c79eaeeaaab0 ∷ 0x0d1ee8880344cfc5 ∷ 0x1158b70562df6398
    ∷ 0x6089decb95dc42e9 ∷ 0xd1aa0766a92ae1bb ∷ 0x6c9ee809eb5d8ff7 ∷ 0xb5dbf3ba51ae77d8
    ∷ 0x040a72e576c14cf1 ∷ 0x08b34ff0da600641 ∷ 0x492d67c654e0e3fe ∷ 0x3904510f382cf861
    ∷ 0xf1706c1b84dc18db ∷ 0x9143f04bba3152fd ∷ 0x56ad7d08f4ab1368 ∷ 0x2000749a91a52590
    ∷ 0x931119da85e712e0 ∷ 0x829515339365b6b4 ∷ 0x83082cd79488ef54 ∷ 0x56778d20b1e52a17
    ∷ 0x473dc0f8506588aa ∷ 0x8aed7294826e99df ∷ 0xe368b026a1161fd3 ∷ 0xac22bde51e9c9678
    ∷ 0x5283cdeb992f88fb ∷ 0x1f03b5cf0b665bf6 ∷ 0xb9cfc98f9d80fd8e ∷ 0x26e96b92a31f1bda
    ∷ 0xe60cdcf9b95dd9b8 ∷ 0xfb9d45f3c10232a8 ∷ 0x03e126aece5b8589 ∷ 0xabc379d14db4d02b
    ∷ 0xb041e868bf6b53fc ∷ 0x352ea8a6d9b0eca4 ∷ 0x29a6c6c0e724fdae ∷ 0x92ed261b36adc3b0
    ∷ 0x54be8675584422db ∷ 0x68c89a384c9c24c8 ∷ 0x5834f6128762eeac ∷ 0xa2c5375bb331e615
    ∷ 0x6015479900f95612 ∷ 0x717c149b20bfac9c ∷ 0x15a1e6402c33973e ∷ 0xd118363e55fc0048
    ∷ 0x5d845d5a14bb5a02 ∷ 0xc59a95e131e29198 ∷ 0xdf3d445a0ec6b6b2 ∷ 0xe9270f18901005aa
    ∷ 0xbe4ac8de40c727d5 ∷ 0x5f855aced267ff1c ∷ 0x419322d4ce78d691 ∷ 0x36015b2528ea84c5
    ∷ 0xf54b3c254a8d8d04 ∷ 0xfbe410bb705002ae ∷ 0x07bac68efe19f88e ∷ 0x33df9819364de4fe
    ∷ 0x3cea137358eec043 ∷ 0xddc140cf05945cff ∷ 0x345306415edb5078 ∷ 0x5cb2c84ece3977bd
    ∷ 0x2cd631d264603b50 ∷ 0x8aa341a2b01516ed ∷ 0xaf6b399e76c4418d ∷ 0x9574f9300ce45b29
    ∷ 0x99c41faffff9e225 ∷ 0x437f809a88fa4269 ∷ 0xf7f0b15315a7d86a ∷ 0x6122494b15625cd9
    ∷ 0x5124b9014ee206ac ∷ 0x03bab5c28d52f402 ∷ 0x6bdf24cbfb2b1b8c ∷ 0x8f353f5f9444b860
    ∷ 0x149719d8870b2a2b ∷ 0xf741ebea8eed7818 ∷ 0xd35dbc8bbfd1f7ca ∷ 0xfde505df6dd07467
    ∷ 0x6125306da4d6a38d ∷ 0xd2af38affd1070ae ∷ 0x1ffbeae984c02c28 ∷ 0x12f6a12f7a61ade8
    ∷ 0x3992ce66b7df9f29 ∷ 0x384cad3908b5a0de ∷ 0x3052b7df000026b8 ∷ 0xf8a45b1b04d0f2a1
    ∷ 0x01fa54c51075a7f7 ∷ 0x4cfce249a78d0626 ∷ 0x1b2e44a84ba48447 ∷ 0xd26055fc72b5e89c
    ∷ 0x42798c82c350719e ∷ 0x8c0c4e12ea71e78c ∷ 0x2aabe281c469e1aa ∷ 0xf2d2f3b33a03ad6e
    ∷ 0xedbee13ce3ca0c56 ∷ 0x74fa1e0d832f10ba ∷ 0x4a5bedc230688905 ∷ 0x1d3fafc325d91409
    ∷ 0x13469dfdd60fefa9 ∷ 0xd3f1d378a3015fd8 ∷ 0xcff290fc3a2d3ab3 ∷ 0xbc71a192e588eb8f
    ∷ 0xaf235696c37f4fd3 ∷ 0xb49cadc4d3c4071a ∷ 0xec4b298bbc19d767 ∷ 0x96067f2a06fb177f
    ∷ 0xc241834108228b43 ∷ 0x74773f423bf50de0 ∷ 0x9e6273f155169800 ∷ 0x8d5b89dda7e7b710
    ∷ 0xbafa2018d12d8c41 ∷ 0xb81775d216054151 ∷ 0x18a8651a3002332e ∷ 0x8f16730042f14fd1 ∷ []

word_of : Option ℕ → ℕ
word_of none = 0
word_of (some x) = x

-- `rtab[i]`; every byte is an index of the table.
pub rtab_at : ℕ → ℕ
unfolding rtab word_of
rtab_at i = word_of (get_elem? rtab i)

-- `(h << 1) | b` with `b` the highest bit of `h`.
pub rotate : ℕ → ℕ
rotate h = h * 2 % 2 ^ 64 + h / 2 ^ 63

-- The `while` loop, with a bound on its rounds.
pub hash_loop : ℕ → ℕ → ℕ → Option ℕ
unfolding rotate rtab_at
hash_loop fuel h zero = some h
hash_loop zero h (suc i) = none
hash_loop (suc fuel) h (suc i) =
    hash_loop fuel (rotate (bit_xor h (rtab_at (suc i % 256)))) (suc i / 256)

-- `hashUpdate`: the new value of `h`.
pub hash_update : ℕ → ℕ → Option ℕ
unfolding hash_loop
hash_update h i = hash_loop 8 h (add_size i 1)
