-- ===== src/Metrics.antt =====
-- metrics/statsd.go: a statsd client is made from a configuration.
use golang_service.Prelude.{String, List, ◌++◌, ◌⊎◌, inl, inr}
use golang_service.Errors.{Error, ◌<>◌}
use golang_service.Http.{StatsdClient}

pub record StatsdClientConf : Type 0 where
  pub host : String
  pub port : String
  pub namespace : String
  pub tags : List String

-- what is done with the answer of `statsd.New`
unfoldable pub configured : StatsdClientConf → Error ⊎ StatsdClient → Error ⊎ StatsdClient
configured conf (inl err) = inl err
configured conf (inr client) =
    inr (record client { prefix = conf.namespace; all_tags = client.all_tags ++ conf.tags })

-- `GetStatsd`, on the library's `statsd.New`
unfoldable pub get_statsd :
    (String → Error ⊎ StatsdClient) → StatsdClientConf → Error ⊎ StatsdClient
unfolding configured
get_statsd connect conf = configured conf (connect (conf.host <> ":" <> conf.port))
