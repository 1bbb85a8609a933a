-- ===== src/Examples/Contracts.antt =====
-- The contract of stores, kept by a store and by wrappers, at concrete inputs.
use openkeyv.Protocol.Contract.{Contract}
use openkeyv.Store.Simple.{simple_store}
use openkeyv.Store.Simple.Laws.{simple_model, simple_store-Contract}
use openkeyv.Wrapper.SingleCollection.{single_collection, single_model, single_collection-Contract}
use openkeyv.Examples.Host.{host, hi, kv, kv-Contract}

simple_store-Contract_example : Contract host (simple_store host) simple_model
simple_store-Contract_example = simple_store-Contract host

single_collection-Contract_example :
    Contract host (single_collection hi kv) (single_model host hi kv simple_model)
single_collection-Contract_example = single_collection-Contract host hi kv simple_model kv-Contract
