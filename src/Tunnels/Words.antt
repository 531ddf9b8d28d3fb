-- ===== src/Tunnels/Words.antt =====
-- The word lists of internal/utils/subdomain.go.
use Prim.Native.String.{String}
use giraffecloud.Base.{List, [], ◌∷◌}

unfoldable pub adjectives : List String
adjectives =
    "happy" ∷ "clever" ∷ "swift" ∷ "bright" ∷ "calm" ∷ "eager" ∷ "gentle" ∷ "kind" ∷ "lively"
    ∷ "merry" ∷ "nice" ∷ "proud" ∷ "quiet" ∷ "brave" ∷ "witty" ∷ "zesty" ∷ "cool" ∷ "smart" ∷ "wise"
    ∷ "bold" ∷ "cosmic" ∷ "digital" ∷ "dynamic" ∷ "elegant" ∷ "fantastic" ∷ "global" ∷ "infinite"
    ∷ "jolly" ∷ "legendary" ∷ "magic" ∷ "mighty" ∷ "noble" ∷ "optimal" ∷ "perfect" ∷ "quantum"
    ∷ "radiant" ∷ "stellar" ∷ "ultra" ∷ "vibrant" ∷ "wonder" ∷ "agile" ∷ "astral" ∷ "blissful"
    ∷ "brilliant" ∷ "cheerful" ∷ "daring" ∷ "epic" ∷ "fearless" ∷ "graceful" ∷ "heroic" ∷ "ideal"
    ∷ "joyful" ∷ "keen" ∷ "lucky" ∷ "majestic" ∷ "natural" ∷ "optimistic" ∷ "peaceful" ∷ "royal"
    ∷ "serene" ∷ "super" ∷ "true" ∷ "unique" ∷ "valiant" ∷ "warm" ∷ "active" ∷ "amber" ∷ "azure"
    ∷ "bronze" ∷ "crystal" ∷ "diamond" ∷ "electric" ∷ "fire" ∷ "golden" ∷ "iron" ∷ "jade" ∷ "lunar"
    ∷ "mystic" ∷ "neon" ∷ "onyx" ∷ "pearl" ∷ "quartz" ∷ "ruby" ∷ "silver" ∷ "turbo" ∷ "vivid"
    ∷ "wild" ∷ "zen" ∷ "alpha" ∷ "beta" ∷ "delta" ∷ "epic" ∷ "free" ∷ "grand" ∷ "hyper" ∷ "ideal"
    ∷ "just" ∷ "keen" ∷ "level" ∷ "mega" ∷ "nova" ∷ "omega" ∷ "prime" ∷ "quick" ∷ "rapid" ∷ "solid"
    ∷ "tidal" ∷ "vital" ∷ "wave" ∷ "xenon" ∷ "zippy" ∷ "able" ∷ "best" ∷ "chic" ∷ "dear" ∷ "easy"
    ∷ "fair" ∷ "glad" ∷ "holy" ∷ "pure" ∷ "rare" ∷ "safe" ∷ "true" ∷ "vast" ∷ "wise" ∷ "young"
    ∷ "zeal" ∷ "ace" ∷ "big" ∷ "fit" ∷ "fun" ∷ "new" ∷ "top" ∷ "fab" ∷ "fly" ∷ "hip" ∷ "hot" ∷ "icy"
    ∷ "key" ∷ "mad" ∷ "max" ∷ "pro" ∷ "rad" ∷ "sky" ∷ "sun" ∷ "red" ∷ "blue" ∷ "green" ∷ "pink"
    ∷ "aqua" ∷ "amber" ∷ "coral" ∷ "cyber" ∷ "frost" ∷ "glow" ∷ "light" ∷ "mint" ∷ "ocean" ∷ "pixel"
    ∷ "storm" ∷ "thunder" ∷ "velvet" ∷ "winter" ∷ "summer" ∷ "spring" ∷ "autumn" ∷ "forest"
    ∷ "mountain" ∷ "river" ∷ "cloud" ∷ "star" ∷ "moon" ∷ "comet" ∷ "nebula" ∷ "galaxy" ∷ "planet"
    ∷ "solar" ∷ "lunar" ∷ "cosmic" ∷ "space" ∷ "rocket" ∷ "laser" ∷ "turbo" ∷ "nitro" ∷ "boost"
    ∷ "flash" ∷ "blaze" ∷ "spark" ∷ "sonic" ∷ "atomic" ∷ "charged" ∷ "powered" ∷ "strong" ∷ "fierce"
    ∷ "intense" ∷ "extreme" ∷ "ultimate" ∷ "supreme" ∷ "prime" ∷ "elite" ∷ []

unfoldable pub nouns : List String
nouns =
    "giraffe" ∷ "cloud" ∷ "river" ∷ "mountain" ∷ "ocean" ∷ "forest" ∷ "desert" ∷ "valley" ∷ "lake"
    ∷ "island" ∷ "peak" ∷ "canyon" ∷ "beach" ∷ "meadow" ∷ "garden" ∷ "bridge" ∷ "tower" ∷ "castle"
    ∷ "harbor" ∷ "lighthouse" ∷ "compass" ∷ "anchor" ∷ "phoenix" ∷ "dragon" ∷ "eagle" ∷ "falcon"
    ∷ "hawk" ∷ "lion" ∷ "tiger" ∷ "bear" ∷ "wolf" ∷ "fox" ∷ "deer" ∷ "rabbit" ∷ "panda" ∷ "koala"
    ∷ "dolphin" ∷ "whale" ∷ "shark" ∷ "octopus" ∷ "star" ∷ "moon" ∷ "sun" ∷ "comet" ∷ "meteor"
    ∷ "planet" ∷ "galaxy" ∷ "nebula" ∷ "cosmos" ∷ "orbit" ∷ "rocket" ∷ "shuttle" ∷ "satellite"
    ∷ "station" ∷ "probe" ∷ "explorer" ∷ "voyager" ∷ "pioneer" ∷ "venture" ∷ "odyssey" ∷ "thunder"
    ∷ "lightning" ∷ "storm" ∷ "breeze" ∷ "wind" ∷ "rain" ∷ "snow" ∷ "frost" ∷ "ice" ∷ "fire"
    ∷ "flame" ∷ "spark" ∷ "blaze" ∷ "ember" ∷ "ash" ∷ "smoke" ∷ "vapor" ∷ "mist" ∷ "fog" ∷ "dew"
    ∷ "crystal" ∷ "diamond" ∷ "ruby" ∷ "pearl" ∷ "jade" ∷ "onyx" ∷ "quartz" ∷ "amber" ∷ "opal"
    ∷ "topaz" ∷ "emerald" ∷ "sapphire" ∷ "garnet" ∷ "turquoise" ∷ "coral" ∷ "marble" ∷ "granite"
    ∷ "bronze" ∷ "silver" ∷ "gold" ∷ "wave" ∷ "tide" ∷ "current" ∷ "stream" ∷ "creek" ∷ "rapids"
    ∷ "waterfall" ∷ "cascade" ∷ "spring" ∷ "fountain" ∷ "echo" ∷ "whisper" ∷ "song" ∷ "melody"
    ∷ "harmony" ∷ "rhythm" ∷ "beat" ∷ "pulse" ∷ "vibe" ∷ "flow" ∷ "dream" ∷ "vision" ∷ "hope"
    ∷ "wish" ∷ "quest" ∷ "journey" ∷ "path" ∷ "trail" ∷ "road" ∷ "route" ∷ "gate" ∷ "door"
    ∷ "portal" ∷ "arch" ∷ "vault" ∷ "chamber" ∷ "hall" ∷ "temple" ∷ "shrine" ∷ "sanctuary"
    ∷ "citadel" ∷ "fortress" ∷ "bastion" ∷ "keep" ∷ "spire" ∷ "dome" ∷ "pillar" ∷ "column"
    ∷ "obelisk" ∷ "monument" ∷ "horizon" ∷ "dawn" ∷ "dusk" ∷ "twilight" ∷ "aurora" ∷ "zenith"
    ∷ "apex" ∷ "summit" ∷ "crest" ∷ "ridge" ∷ "pixel" ∷ "byte" ∷ "code" ∷ "node" ∷ "link" ∷ "sync"
    ∷ "core" ∷ "hub" ∷ "nexus" ∷ "matrix" ∷ "cipher" ∷ "key" ∷ "lock" ∷ "vault" ∷ "shield" ∷ "guard"
    ∷ "sentinel" ∷ "warden" ∷ "keeper" ∷ "protector" ∷ "seeker" ∷ "finder" ∷ "hunter" ∷ "ranger"
    ∷ "scout" ∷ "guide" ∷ "mentor" ∷ "sage" ∷ "oracle" ∷ "mystic" ∷ "phoenix" ∷ "dragon" ∷ "griffin"
    ∷ "pegasus" ∷ "unicorn" ∷ "sphinx" ∷ "hydra" ∷ "kraken" ∷ "titan" ∷ "giant" ∷ []
